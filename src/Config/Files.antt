-- ===== src/Config/Files.antt =====
-- The system calls of pkg/config/resilience.go on the files of a disk, by their paths.
use eqrcp.Base.{
  ◌≡◌, refl, inl, inr, String, Bool, true, false, List, none, some, Option-cases, arith, eq_iff,
  ◌=ₛ◌, if◌then◌else◌,
}
use eqrcp.Base.Bytes.{Bytes}
use eqrcp.Base.Assoc.{lookup, insert, erase, lookup-insert, lookup-erase}

abbrev pub Files : Type 0
Files = List (String × Bytes)

-- How `os.WriteFile` ends: the whole text is written, or it failed, and the file is as it was or holds
-- what was written of the text until then.
pub data Written : Type 0 where
  whole untouched : Written
  cut : Bytes → Written

unfoldable pub write_file : Files → String → Bytes → Written → Files × Bool
write_file fs path text whole = (insert path text fs, true)
write_file fs path text untouched = (fs, false)
write_file fs path text (cut part) = (insert path part fs, false)

-- `os.Rename`, which replaces a file at the new path; `works` is false where the system refuses.
unfoldable pub rename : Files → (from to : String) → (works : Bool) → Files × Bool
rename fs from to works = elim (lookup from fs) [
  | none ↦ (fs, false)
  | some text ↦ if works then (insert to text (erase from fs), true) else (fs, false)
]

-- `os.Remove`.
unfoldable pub remove : Files → String → (works : Bool) → Files
remove fs path works = if works then erase path fs else fs

module _ (fs : Files) (from to : String) where
  pub rename_refused : rename fs from to false ≡ (fs, false)
  unfolding rename
  rename_refused = elim (Option-cases (lookup from fs)) [
    | inl e ↦ rw (e, rename) refl
    | inr (text, e) ↦ rw (e, rename) refl
  ]

  pub rename_works :
      (text : Bytes)
      → lookup from fs ≡ some text
      → rename fs from to true ≡ (insert to text (erase from fs), true)
  unfolding rename
  rename_works text e = rw (e, rename) refl

  module _ (text : Bytes) (differ : (to =ₛ from) ≡ false) where
    pub lookup-moved : lookup to (insert to text (erase from fs)) ≡ some text
    lookup-moved = ground (arith, lookup-insert to to text (erase from fs), eq_iff to to)

    pub lookup-moved_from : lookup from (insert to text (erase from fs)) ≡ none
    lookup-moved_from = ground (
      arith,
      lookup-insert to from text (erase from fs),
      lookup-erase from from fs,
      eq_iff from from,
    )

    pub lookup-moved_other :
        (other : String)
        → (to =ₛ other) ≡ false
        → (from =ₛ other) ≡ false
        → lookup other (insert to text (erase from fs)) ≡ lookup other fs
    lookup-moved_other other h k =
        ground (arith, lookup-insert to other text (erase from fs), lookup-erase from other fs)

pub lookup-insert_same :
    (path : String) (text : Bytes) (fs : Files) → lookup path (insert path text fs) ≡ some text
lookup-insert_same path text fs = ground (arith, lookup-insert path path text fs, eq_iff path path)

pub lookup-insert_other :
    (path other : String) (text : Bytes) (fs : Files)
    → (path =ₛ other) ≡ false
    → lookup other (insert path text fs) ≡ lookup other fs
lookup-insert_other path other text fs h = ground (arith, lookup-insert path other text fs)

pub neq_sym : (a b : String) → (a =ₛ b) ≡ false → (b =ₛ a) ≡ false
neq_sym a b h = ground (arith, eq_iff a b, eq_iff b a)

-- What a write leaves elsewhere, and of itself.
pub write_file-other :
    (fs : Files) (path other : String) (text : Bytes) (how : Written)
    → (path =ₛ other) ≡ false
    → lookup other (write_file fs path text how).0 ≡ lookup other fs
unfolding write_file
write_file-other fs path other text whole h = lookup-insert_other path other text fs h
write_file-other fs path other text untouched h = refl
write_file-other fs path other text (cut part) h = lookup-insert_other path other part fs h

pub write_file-whole :
    (fs : Files) (path : String) (text : Bytes) (how : Written)
    → (write_file fs path text how).1 ≡ true
    → lookup path (write_file fs path text how).0 ≡ some text
unfolding write_file
write_file-whole fs path text whole h = lookup-insert_same path text fs
write_file-whole fs path text untouched h = cc
write_file-whole fs path text (cut part) h = cc
