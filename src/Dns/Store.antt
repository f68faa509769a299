-- ===== src/Dns/Store.antt =====
-- cmd/eqt-dns/main.go: `AcmeStore`, the challenges by record name and value, with their expiry.
pub mod Live
pub mod Calls
pub mod Refines
use eqrcp.Base.{
  ◌≡◌, ◌+◌, String, Bool, true, false, List, [], ◌∷◌, Option, none, some, ltb, ◌=ₛ◌, if◌then◌else◌,
}
use eqrcp.Base.Clock.{Time}
use eqrcp.Base.Assoc.{lookup, insert, erase}

abbrev pub Challenges : Type 0
Challenges = List (String × Time)

pub record AcmeStore : Type 0 where
  pub entries : List (String × Challenges)

unfoldable pub new_acme_store : AcmeStore
new_acme_store = record { entries = [] }

abbrev pub challenges_or_empty : Option Challenges → Challenges
challenges_or_empty none = []
challenges_or_empty (some m) = m

abbrev put_back : String → Challenges → List (String × Challenges) → List (String × Challenges)
put_back name [] s = erase name s
put_back name (c ∷ cs) s = insert name (c ∷ cs) s

-- The challenges that have not expired, and their values.
unfoldable pub unexpired : Time → Challenges → Challenges
unexpired now [] = []
unexpired now ((v, expiry) ∷ m) =
    let rest = unexpired now m in if ltb now expiry then (v, expiry) ∷ rest else rest

abbrev pub names_of {ℓ} : {V : Type ℓ} → List (String × V) → List String
names_of [] = []
names_of ((v, _) ∷ m) = v ∷ names_of m

-- `canonical` is `strings.ToLower(strings.TrimSuffix(recordName, ".")) + "."`.
module _ (canonical : String → String) where
  unfoldable pub set : AcmeStore → String → String → (ttl now : Time) → AcmeStore
  set s record_name v ttl now =
      let name = canonical record_name in
      let m = challenges_or_empty (lookup name s.entries) in
      record { entries = insert name (insert v (now + ttl) m) s.entries }

  unfoldable pub delete : AcmeStore → String → String → AcmeStore
  delete s record_name v =
      let name = canonical record_name in
      elim (lookup name s.entries) [
        | none ↦ s
        | some m ↦ record { entries = put_back name (erase v m) s.entries }
      ]

  unfoldable pub delete_record : AcmeStore → String → AcmeStore
  delete_record s record_name = record { entries = erase (canonical record_name) s.entries }

  unfoldable pub get : AcmeStore → String → Time → AcmeStore × List String
  get s record_name now =
      let name = canonical record_name in
      elim (lookup name s.entries) [
        | none ↦ (s, [])
        | some m ↦ (
          record { entries = put_back name (unexpired now m) s.entries },
          names_of (unexpired now m),
        )
      ]

unfoldable pub clear : AcmeStore → AcmeStore
clear s = record { entries = [] }

abbrev keep_live :
    Challenges → (String × List String) → List (String × List String) → List (String × List String)
keep_live [] row rows = rows
keep_live (c ∷ cs) row rows = row ∷ rows

abbrev keep_entry : String → Challenges → List (String × Challenges) → List (String × Challenges)
keep_entry name [] s = s
keep_entry name (c ∷ cs) s = (name, c ∷ cs) ∷ s

-- Every record with its live values, and the store without what has expired.
unfoldable pub sweep :
    Time → List (String × Challenges) → List (String × Challenges) × List (String × List String)
sweep now [] = ([], [])
sweep now ((name, m) ∷ s) =
    let (rest, rows) = sweep now s in
    let live = unexpired now m in
    (keep_entry name live rest, keep_live live (name, names_of live) rows)

unfoldable pub get_all_records : AcmeStore → Time → AcmeStore × List (String × List String)
get_all_records s now = let (kept, rows) = sweep now s.entries in (record { entries = kept }, rows)
