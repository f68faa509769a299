-- ===== src/Dns/Store/Live.antt =====
-- The store as the set of the challenges that are live: what its calls do to this set.
use eqrcp.Base.{
  ◌≤◌, ◌≡◌, refl, String, Bool, false, ◌||◌, List, [], ◌∷◌, Option, none, some, ltb, arith, eq_iff,
  ◌=ₛ◌, if◌then◌else◌,
}
use eqrcp.Base.Clock.{Time}
use eqrcp.Base.Assoc.{lookup, insert, erase, lookup-insert, lookup-erase}
use eqrcp.Base.Distinct.{has, AllDistinct}
use eqrcp.Dns.Store.{Challenges, AcmeStore, challenges_or_empty, put_back, unexpired, names_of}

abbrev pub expires_after : Time → Option Time → Bool
expires_after now none = false
expires_after now (some expiry) = ltb now expiry

-- A value is a live challenge of the record of this canonical name.
unfoldable pub is_live : AcmeStore → Time → String → String → Bool
is_live s now name v = expires_after now (lookup v (challenges_or_empty (lookup name s.entries)))

-- Values stand once in each record.
abbrev pub IsValid : AcmeStore → Type 0
IsValid s = (name : String) → AllDistinct (names_of (challenges_or_empty (lookup name s.entries)))

has-insert :
    (a v : String) (expiry : Time) (m : Challenges)
    → has a (names_of (insert v expiry m)) ≡ a =ₛ v || has a (names_of m)
unfolding insert
has-insert a v expiry [] = refl
has-insert a v expiry ((w, e) ∷ m) =
    ground (arith, has-insert a v expiry m, eq_iff v w, eq_iff a v, eq_iff a w)

pub insert-AllDistinct :
    (v : String) (expiry : Time) (m : Challenges)
    → AllDistinct (names_of m)
    → AllDistinct (names_of (insert v expiry m))
unfolding insert
insert-AllDistinct v expiry [] h = (refl, tt)
insert-AllDistinct v expiry ((w, e) ∷ m) h =
    ground
      (arith, insert-AllDistinct v expiry m h.1, has-insert w v expiry m, eq_iff v w, eq_iff w v)

has-erase :
    (a v : String) (m : Challenges)
    → has a (names_of m) ≡ false
    → has a (names_of (erase v m)) ≡ false
unfolding erase
has-erase a v [] h = refl
has-erase a v ((w, e) ∷ m) h = ground (arith, has-erase a v m)

pub erase-AllDistinct :
    (v : String) (m : Challenges) → AllDistinct (names_of m) → AllDistinct (names_of (erase v m))
unfolding erase
erase-AllDistinct v [] h = tt
erase-AllDistinct v ((w, e) ∷ m) h = ground (arith, erase-AllDistinct v m h.1, has-erase w v m)

has-unexpired :
    (a : String) (now : Time) (m : Challenges)
    → has a (names_of m) ≡ false
    → has a (names_of (unexpired now m)) ≡ false
unfolding unexpired
has-unexpired a now [] h = refl
has-unexpired a now ((w, e) ∷ m) h = ground (arith, has-unexpired a now m)

pub unexpired-AllDistinct :
    (now : Time) (m : Challenges)
    → AllDistinct (names_of m)
    → AllDistinct (names_of (unexpired now m))
unfolding unexpired
unexpired-AllDistinct now [] h = tt
unexpired-AllDistinct now ((w, e) ∷ m) h =
    ground (arith, unexpired-AllDistinct now m h.1, has-unexpired w now m)

lookup-absent : (a : String) (m : Challenges) → has a (names_of m) ≡ false → lookup a m ≡ none
unfolding lookup
lookup-absent a [] h = refl
lookup-absent a ((w, e) ∷ m) h = ground (arith, lookup-absent a m)

-- The values that are listed are those that are live.
pub has-names_of-unexpired :
    (a : String) (now : Time) (m : Challenges)
    → AllDistinct (names_of m)
    → has a (names_of (unexpired now m)) ≡ expires_after now (lookup a m)
unfolding unexpired lookup
has-names_of-unexpired a now [] h = refl
has-names_of-unexpired a now ((w, e) ∷ m) h =
    ground (arith, has-names_of-unexpired a now m h.1, lookup-absent a m, eq_iff a w)

-- What has not expired by now is found as before at any later time.
pub lookup-unexpired :
    (a : String) (now later : Time) (m : Challenges)
    → AllDistinct (names_of m)
    → now ≤ later
    → expires_after later (lookup a (unexpired now m)) ≡ expires_after later (lookup a m)
unfolding unexpired lookup
lookup-unexpired a now later [] h le = refl
lookup-unexpired a now later ((w, e) ∷ m) h le = ground (
  arith,
  lookup-unexpired a now later m h.1 le,
  lookup-absent a m,
  lookup-absent a (unexpired now m),
  has-unexpired a now m,
  eq_iff a w,
)

pub lookup-put_back :
    (name other : String) (m : Challenges) (s : List (String × Challenges))
    → challenges_or_empty (lookup other (put_back name m s))
      ≡ (if name =ₛ other then m else challenges_or_empty (lookup other s))
lookup-put_back name other [] s = ground (arith, lookup-erase name other s)
lookup-put_back name other (c ∷ cs) s = ground (arith, lookup-insert name other (c ∷ cs) s)
