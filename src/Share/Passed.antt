-- ===== src/Share/Passed.antt =====
-- pkg/server/server.go: the active clients together with those whose requests passed the check of the limit
-- and are not noted yet, none counted twice.
use eqrcp.Base.{
  ℕ, suc, ◌+◌, ◌≤◌, ◌≡◌, refl, inl, inr, String, Bool-cases, true, false, not, ◌&&◌, List, [], ◌∷◌,
  length, arith, eq_iff, ◌=ₛ◌, if◌then◌else◌,
}
use eqrcp.Base.Clock.{Time}
use eqrcp.Base.Assoc.{lookup, insert}
use eqrcp.Base.Distinct.{has, AllDistinct, without, has-without_other}
use eqrcp.Share.Clients.{active_at, count_active, count_others, is_active}
use eqrcp.Share.Active.{keys, count_others-new, active_at-later}

-- The active clients that are none of these.
unfoldable pub count_free : Time → List String → List (String × Time) → ℕ
count_free now passed [] = 0
count_free now passed ((id, seen) ∷ m) =
    let others = count_free now passed m in
    if active_at now seen && not (has id passed) then suc others else others

unfoldable pub count_distinct : List String → ℕ
count_distinct [] = 0
count_distinct (c ∷ cs) = let others = count_distinct cs in if has c cs then others else suc others

pub count_distinct-le-length : (cs : List String) → count_distinct cs ≤ length cs
unfolding count_distinct
count_distinct-le-length [] = omega arith
count_distinct-le-length (c ∷ cs) = ground (arith, count_distinct-le-length cs)

pub count_free-nil :
    (now : Time) (m : List (String × Time)) → count_free now [] m ≡ count_active now m
unfolding count_free count_active
count_free-nil now [] = refl
count_free-nil now ((id, seen) ∷ m) = ground (arith, count_free-nil now m)

pub count_free-le :
    (now : Time) (passed : List String) (m : List (String × Time))
    → count_free now passed m ≤ count_active now m
unfolding count_free count_active
count_free-le now passed [] = omega arith
count_free-le now passed ((id, seen) ∷ m) = ground (arith, count_free-le now passed m)

pub count_free-later :
    (now later : Time) (passed : List String) (m : List (String × Time))
    → now ≤ later
    → count_free later passed m ≤ count_free now passed m
unfolding count_free
count_free-later now later passed [] le = omega arith
count_free-later now later passed ((id, seen) ∷ m) le =
    let ih = count_free-later now later passed m le in
    let earlier = active_at-later now later seen le in
    elim (Bool-cases (active_at later seen)) [
      | inl on ↦ let also = earlier on in ground (arith, ih, on, also)
      | inr off ↦ ground (arith, ih, off)
    ]

-- A client that is not active is none of those counted.
pub count_active-others :
    (now : Time) (client : String) (m : List (String × Time))
    → AllDistinct (keys m)
    → is_active now client m ≡ false
    → count_active now m ≤ count_others now client m
unfolding count_active count_others is_active lookup
count_active-others now client [] distinct idle = omega arith
count_active-others now client ((id, seen) ∷ m) distinct idle =
    let ih = count_active-others now client m distinct.1 in
    let new = count_others-new now client m in
    ground (arith, ih, new, eq_iff id client, eq_iff client id)

-- A client that is not in the map makes no difference.
count_free-new :
    (now : Time) (client : String) (passed : List String) (m : List (String × Time))
    → has client (keys m) ≡ false
    → count_free now (client ∷ passed) m ≡ count_free now passed m
unfolding count_free
count_free-new now client passed [] h = refl
count_free-new now client passed ((id, seen) ∷ m) h =
    let ih = count_free-new now client passed m (ground arith) in
    ground (arith, ih, eq_iff id client, eq_iff client id)

-- Nor does one that passed before.
pub count_free-known :
    (now : Time) (client : String) (passed : List String) (m : List (String × Time))
    → has client passed ≡ true
    → count_free now (client ∷ passed) m ≡ count_free now passed m
unfolding count_free
count_free-known now client passed [] h = refl
count_free-known now client passed ((id, seen) ∷ m) h =
    let ih = count_free-known now client passed m h in
    elim (Bool-cases (id =ₛ client)) [
      | inl same ↦
          let is_passed : has id passed ≡ true = rw ((eq_iff id client).0 same) h in
          ground (arith, ih, is_passed, same)
      | inr other ↦ ground (arith, ih, other)
    ]

-- An active client that passes is counted among the others no more.
pub count_free-passed :
    (now : Time) (client : String) (passed : List String) (m : List (String × Time))
    → AllDistinct (keys m)
    → has client passed ≡ false
    → is_active now client m ≡ true
    → suc (count_free now (client ∷ passed) m) ≤ count_free now passed m
unfolding count_free is_active lookup
count_free-passed now client passed [] distinct new active = ground (arith, active)
count_free-passed now client passed ((id, seen) ∷ m) distinct new active =
    elim (Bool-cases (id =ₛ client)) [
      | inl same ↦
          let is : id ≡ client = (eq_iff id client).0 same in
          let not_passed : has id passed ≡ false = rw is new in
          let back : (client =ₛ id) ≡ true = (eq_iff client id).1 (ground arith) in
          let absent : has client (keys m) ≡ false = rw (← is) distinct.0 in
          let rest = count_free-new now client passed m absent in
          ground (arith, rest, same, back, not_passed)
      | inr other ↦
          let back : (client =ₛ id) ≡ false = ground (arith, eq_iff client id, eq_iff id client) in
          let ih = count_free-passed now client passed m distinct.1 new in
          ground (arith, ih, other, back)
    ]

-- One request less of a client that passed: none of it is left, or others of it are.
pub count_distinct-without :
    (client : String) (passed : List String)
    → has client passed ≡ true
    → (if has client (without client passed) then 0 else 1) + count_distinct (without client passed)
      ≡ count_distinct passed
unfolding count_distinct
count_distinct-without client [] h = cc
count_distinct-without client (c ∷ cs) h = elim (Bool-cases (client =ₛ c)) [
  | inl same ↦ let is : client ≡ c = (eq_iff client c).0 same in rw same (rw is (ground arith))
  | inr other ↦
      let ih = count_distinct-without client cs in
      let kept = has-without_other client c cs other in ground (arith, ih, kept, other)
]

module _ (now : Time) (client : String) (passed : List String) where
  count_free-without_new :
      (m : List (String × Time))
      → has client (keys m) ≡ false
      → count_free now (without client passed) m ≡ count_free now passed m
  unfolding count_free
  count_free-without_new [] h = refl
  count_free-without_new ((id, seen) ∷ m) h =
      let ih = count_free-without_new m (ground arith) in
      let kept = has-without_other client id passed (ground arith) in ground (arith, ih, kept)

  -- A client that passed is noted.
  pub count_free-insert :
      (m : List (String × Time))
      → AllDistinct (keys m)
      → has client passed ≡ true
      → count_free now (without client passed) (insert client now m)
        ≤ (if has client (without client passed) then 0 else 1) + count_free now passed m
  unfolding count_free insert
  count_free-insert [] distinct h = ground arith
  count_free-insert ((id, seen) ∷ m) distinct h = elim (Bool-cases (client =ₛ id)) [
    | inl same ↦
        let is : client ≡ id = (eq_iff client id).0 same in
        let is_passed : has id passed ≡ true = rw (← is) h in
        let absent : has client (keys m) ≡ false = rw is distinct.0 in
        let rest = count_free-without_new m absent in
        let left : has id (without client passed) ≡ has client (without client passed) =
          rw is refl in
        ground (arith, rest, same, is_passed, left)
    | inr other ↦
        let ih = count_free-insert m distinct.1 h in
        let kept = has-without_other client id passed other in ground (arith, ih, kept, other)
  ]
