-- ===== src/Server/FileName.antt =====
-- pkg/server/util.go: `getFileName` and `createUniqueFile`.
pub mod Ends
pub mod Unique
use eqrcp.Base.{
  ℕ, zero, suc, ◌+◌, ◌*◌, ◌≡◌, String, Bool, true, false, List, [], ◌∷◌, ◌++◌, Option, none, some,
  length, get_elem?, ◌=ₛ◌, if◌then◌else◌,
}
use eqrcp.Base.Distinct.{has}

-- A file's name and its variants: `numbered k` is what `fmt.Sprintf("%s(%v)%s", …)` makes of the
-- name, its extension and k. The variants differ from one another and from the name.
pub record Naming : Type 0 where
  pub name : String
  pub numbered : ℕ → String
  pub numbered_inj : (j k : ℕ) → numbered j ≡ numbered k → j ≡ k
  pub numbered_new : (k : ℕ) → (numbered k =ₛ name) ≡ false

-- Enough fuel for a list of names: a round for each place, after each of the collisions.
abbrev pub name_fuel : List String → ℕ
name_fuel names = suc (length names) * suc (length names) + length names + 1

-- How `os.OpenFile` with `O_CREATE` and `O_EXCL` ends: it made the file, the file is there already,
-- or another error.
pub data Opened : Type 0 where
  created exists : Opened
  failed : String → Opened

-- A directory: the files in it, and the error that a creation meets for another reason, if any.
pub record Directory : Type 0 where
  pub files : List String
  pub error : String → Option String

unfoldable pub open_exclusive : Directory → String → Directory × Opened
open_exclusive d name = if has name d.files then (d, exists) else elim (d.error name) [
  | some e ↦ (d, failed e)
  | none ↦ (record d { files = name ∷ d.files }, created)
]

pub data Outcome : Type 0 where
  file : String → Outcome
  os_error : String → Outcome

module _ (n : Naming) where
  -- The loop, with its variables `newFilename`, `number` and `i`. After a collision `i` is set to 0
  -- and then incremented.
  unfoldable pub scan : (fuel : ℕ) → List String → String → (number i : ℕ) → Option String
  scan zero names current number i = none
  scan (suc fuel) names current number i =
      let renamed = scan fuel names (n.numbered number) (suc number) 1 in
      let next = scan fuel names current number (suc i) in
      elim (get_elem? names i) [
        | none ↦ some current
        | some taken ↦ if current =ₛ taken then renamed else next
      ]

  unfoldable pub get_file_name : ℕ → List String → Option String
  unfolding scan
  get_file_name fuel names = scan fuel names n.name 1 0

  -- The rounds of the loop; `names` grows by each name that was there already.
  unfoldable pub create_unique_file :
      (rounds : ℕ) → Directory → List String → Directory × Option Outcome
  create_unique_file zero d names = (d, none)
  create_unique_file (suc rounds) d names = elim (get_file_name (name_fuel names) names) [
    | none ↦ (d, none)
    | some name ↦
        let again = create_unique_file rounds d (names ++ name ∷ []) in
        let (d', opened) = open_exclusive d name in
        elim opened [
          | created ↦ (d', some (file name))
          | exists ↦ again
          | failed e ↦ (d', some (os_error e))
        ]
  ]
