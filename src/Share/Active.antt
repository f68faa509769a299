-- ===== src/Share/Active.antt =====
-- pkg/server/server.go: the counts of the active clients when a client is seen and when time goes on.
use eqrcp.Base.{
  suc, ◌≤◌, ◌≡◌, inl, inr, refl, ◌∙◌, String, Bool-cases, true, false, List, [], ◌∷◌, arith, eq_iff,
  ◌=ₛ◌,
}
use eqrcp.Base.Clock.{Time, time_sub}
use eqrcp.Base.Assoc.{lookup, insert}
use eqrcp.Base.Distinct.{has, AllDistinct}
use eqrcp.Share.Clients.{active_at, count_active, count_others, is_active}

abbrev pub keys : List (String × Time) → List String
keys [] = []
keys ((id, seen) ∷ m) = id ∷ keys m

-- A client that is not in the map is none of those counted.
pub count_others-new :
    (now : Time) (client : String) (m : List (String × Time))
    → has client (keys m) ≡ false
    → count_others now client m ≡ count_active now m
unfolding count_others count_active
count_others-new now client [] h = refl
count_others-new now client ((id, seen) ∷ m) h =
    let ih = count_others-new now client m (ground arith) in
    ground (arith, ih, eq_iff id client, eq_iff client id)

-- A client that is seen now is one more than the others, at most.
pub count_active-insert :
    (now : Time) (client : String) (m : List (String × Time))
    → AllDistinct (keys m)
    → count_active now (insert client now m) ≤ suc (count_others now client m)
unfolding count_active count_others insert
count_active-insert now client [] distinct = ground arith
count_active-insert now client ((id, seen) ∷ m) distinct =
    let ih = count_active-insert now client m distinct.1 in
    let new = count_others-new now client m in
    ground (arith, ih, new, eq_iff id client, eq_iff client id)

-- An active client that is seen again is counted already.
pub count_active-again :
    (now : Time) (client : String) (m : List (String × Time))
    → AllDistinct (keys m)
    → is_active now client m ≡ true
    → suc (count_others now client m) ≤ count_active now m
unfolding count_active count_others is_active lookup
count_active-again now client [] distinct active = ground (arith, active)
count_active-again now client ((id, seen) ∷ m) distinct active =
    let ih = count_active-again now client m distinct.1 in
    let new = count_others-new now client m in
    ground (arith, ih, new, eq_iff id client, eq_iff client id)

pub active_at-later :
    (now later seen : Time) → now ≤ later → active_at later seen ≡ true → active_at now seen ≡ true
unfolding time_sub
active_at-later now later seen le h = ground (arith, h)

pub count_active-later :
    (now later : Time) (m : List (String × Time))
    → now ≤ later
    → count_active later m ≤ count_active now m
unfolding count_active
count_active-later now later [] le = ground arith
count_active-later now later ((id, seen) ∷ m) le =
    let ih = count_active-later now later m le in
    let earlier = active_at-later now later seen le in
    elim (Bool-cases (active_at later seen)) [
      | inl on ↦ let also = earlier on in ground (arith, ih, on, also)
      | inr off ↦ ground (arith, ih, off)
    ]

has-keys-insert :
    (k client : String) (now : Time) (m : List (String × Time))
    → k =ₛ client ≡ false
    → has k (keys (insert client now m)) ≡ has k (keys m)
unfolding insert
has-keys-insert k client now [] other = ground arith
has-keys-insert k client now ((id, seen) ∷ m) other =
    ground
      (arith, has-keys-insert k client now m other, eq_iff client id, eq_iff k client, eq_iff k id)

pub keys-insert-AllDistinct :
    (client : String) (now : Time) (m : List (String × Time))
    → AllDistinct (keys m)
    → AllDistinct (keys (insert client now m))
unfolding insert
keys-insert-AllDistinct client now [] h = (refl, tt)
keys-insert-AllDistinct client now ((id, seen) ∷ m) h = elim (Bool-cases (client =ₛ id)) [
  | inl same ↦ rw (same, insert) h
  | inr other ↦
      rw (other, insert)
        (
          has-keys-insert id client now m (ground (arith, eq_iff client id, eq_iff id client))
              ∙ h.0,
          keys-insert-AllDistinct client now m h.1,
        )
]
