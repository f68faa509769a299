-- ===== src/Server/FileName/Unique.antt =====
-- The names that `getFileName` and `createUniqueFile` give.
use eqrcp.Base.{
  ℕ, zero, suc, ◌+◌, ◌≤◌, ◌≡◌, refl, ap, sym, ◌∙◌, ◌⊎◌, inl, inr, String, true, false, ◌↔◌, List,
  [], ◌∷◌, ◌++◌, Option, none, some, ◌||◌, length, drop, All, get_elem?, arith, eq_iff, Bool-cases,
  Option-cases, ◌=ₛ◌,
}
use eqrcp.Base.Distinct.{has, has-append, AllDistinct, length-le_of_distinct}
use eqrcp.Server.FileName.{
  Naming, name_fuel, scan, get_file_name, Directory, open_exclusive, Outcome, file, os_error,
  create_unique_file,
}
use eqrcp.Server.FileName.Ends.{get_file_name_ends}

no_more :
    (a : String) (names : List String) (i : ℕ)
    → get_elem? names i ≡ none
    → has a (drop i names) ≡ false
no_more a [] zero e = refl
no_more a [] (suc i) e = refl
no_more a (x ∷ xs) zero e = cc
no_more a (x ∷ xs) (suc i) e = no_more a xs i e

has-drop_other :
    (a x : String) (names : List String) (i : ℕ)
    → get_elem? names i ≡ some x
    → has a (drop i names) ≡ a =ₛ x || has a (drop (suc i) names)
has-drop_other a x [] i e = cc
has-drop_other a x (y ∷ ys) zero e = ground (arith, eq_iff a x, eq_iff a y)
has-drop_other a x (y ∷ ys) (suc i) e = has-drop_other a x ys i e

has-drop_one :
    (a : String) (names : List String) → has a names ≡ false → has a (drop 1 names) ≡ false
has-drop_one a [] h = refl
has-drop_one a (x ∷ xs) h = ground arith

module _ (n : Naming) where
  module _ (fuel : ℕ) (names : List String) (current : String) (number i : ℕ) where
    scan_end : get_elem? names i ≡ none → scan n (suc fuel) names current number i ≡ some current
    unfolding scan
    scan_end e = rw (e, scan) refl

    scan_same :
        (x : String)
        → get_elem? names i ≡ some x
        → current =ₛ x ≡ true
        → scan n (suc fuel) names current number i
          ≡ scan n fuel names (n.numbered number) (suc number) 1
    unfolding scan
    scan_same x e same = rw (e, scan) (rw same refl)

    scan_other :
        (x : String)
        → get_elem? names i ≡ some x
        → current =ₛ x ≡ false
        → scan n (suc fuel) names current number i ≡ scan n fuel names current number (suc i)
    unfolding scan
    scan_other x e other = rw (e, scan) (rw other refl)

  -- The result is the current name, met nowhere from `i` on, or a variant met nowhere from 1 on.
  scan_lem :
      (fuel : ℕ) (names : List String) (current : String) (number i : ℕ) (r : String)
      → scan n fuel names current number i ≡ some r
      → ((r ≡ current) × (has current (drop i names) ≡ false))
        ⊎ ((has r (drop 1 names) ≡ false)
            × (has current (drop i names) ≡ true)
            × (r =ₛ n.name ≡ false))
  unfolding scan
  scan_lem zero names current number i r e = cc
  scan_lem (suc fuel) names current number i r e = elim (Option-cases (get_elem? names i)) [
    | inl end ↦
        let same_name = sym (scan_end fuel names current number i end) ∙ e in
        inl (cc, no_more current names i end)
    | inr (x, at_i) ↦
        let here = has-drop_other current x names i at_i in
        elim (Bool-cases (current =ₛ x)) [
          | inl same ↦
              let e' = sym (scan_same fuel names current number i x at_i same) ∙ e in
              inr (elim (scan_lem fuel names (n.numbered number) (suc number) 1 r e') [
                | inl (is, free) ↦ (
                  ap (λ v. has v (drop 1 names)) is ∙ free,
                  here ∙ rw same refl,
                  ap (λ v. v =ₛ n.name) is ∙ n.numbered_new number,
                )
                | inr (free, _, new) ↦ (free, here ∙ rw same refl, new)
              ])
          | inr other ↦
              let e' = sym (scan_other fuel names current number i x at_i other) ∙ e in
              elim (scan_lem fuel names current number (suc i) r e') [
                | inl (is, free) ↦ inl (is, here ∙ rw other free)
                | inr (free, later, new) ↦ inr (free, here ∙ rw other later, new)
              ]
        ]
  ]

  -- A name that stands in the list from `i` on is met.
  scan_renames :
      (fuel : ℕ) (names : List String) (current : String) (number i : ℕ) (r : String)
      → has current (drop i names) ≡ true
      → scan n fuel names current number i ≡ some r
      → (later : ℕ) × (scan n later names (n.numbered number) (suc number) 1 ≡ some r)
  unfolding scan
  scan_renames zero names current number i r met e = cc
  scan_renames (suc fuel) names current number i r met e = elim (Option-cases (get_elem? names i)) [
    | inl end ↦ let free = no_more current names i end in cc
    | inr (x, at_i) ↦
        let here = has-drop_other current x names i at_i in
        elim (Bool-cases (current =ₛ x)) [
          | inl same ↦ (fuel, sym (scan_same fuel names current number i x at_i same) ∙ e)
          | inr other ↦
              scan_renames fuel names current number (suc i) r (ground arith)
                (sym (scan_other fuel names current number i x at_i other) ∙ e)
        ]
  ]

  -- What `getFileName` returns is the name itself exactly when no file has it, and is met nowhere in
  -- the list but, for a variant, at its first place: the search that starts over skips that one.
  pub get_file_name_lem :
      (fuel : ℕ) (names : List String) (r : String)
      → get_file_name n fuel names ≡ some r
      → (has r (drop 1 names) ≡ false) × ((has n.name names ≡ false) ↔ (r ≡ n.name))
  unfolding get_file_name
  get_file_name_lem fuel names r e = elim (scan_lem fuel names n.name 1 0 r e) [
    | inl (is, free) ↦
        (ap (λ v. has v (drop 1 names)) is ∙ has-drop_one n.name names free, (λ h. is, λ h. free))
    | inr (free, met, new) ↦ (free, (λ h. cc, λ h. ground (arith, eq_iff r n.name)))
  ]

  -- A flaw of `getFileName`: when the first name of the list is the first variant and the name itself
  -- stands later, the result is that first name, which is taken.
  pub get_file_name_taken :
      (fuel : ℕ) (rest : List String)
      → has n.name rest ≡ true
      → has (n.numbered 1) rest ≡ false
      → name_fuel (n.numbered 1 ∷ rest) ≤ fuel
      → get_file_name n fuel (n.numbered 1 ∷ rest) ≡ some (n.numbered 1)
  unfolding get_file_name
  get_file_name_taken fuel rest met free enough =
      let names : List String = n.numbered 1 ∷ rest in
      let (r, e) = get_file_name_ends n names fuel enough in
      let there : has n.name names ≡ true = ground arith in
      let (later, f) = scan_renames fuel names n.name 1 0 r there e in
      elim (scan_lem later names (n.numbered 1) 2 1 r f) [
        | inl (is, _) ↦ e ∙ ap some is
        | inr (_, again, _) ↦ cc
      ]

not_met :
    (r : String) (names tried : List String)
    → All (λ v. has v names ≡ true) tried
    → has r names ≡ false
    → has r tried ≡ false
not_met r names [] met free = refl
not_met r names (v ∷ vs) met free = ground (arith, not_met r names vs met.1 free, eq_iff r v)

widen :
    (r : String) (names tried : List String)
    → All (λ v. has v names ≡ true) tried
    → All (λ v. has v (names ++ r ∷ []) ≡ true) tried
widen r names [] met = tt
widen r names (v ∷ vs) (h, met) =
    (ground (arith, has-append v names (r ∷ [])), widen r names vs met)

has-snoc : (r : String) (names : List String) → has r (names ++ r ∷ []) ≡ true
has-snoc r names = ground (arith, has-append r names (r ∷ []), eq_iff r r)

-- A file is made that was not there before, and nothing else changes, or the directory stays as it
-- was and the error is told.
abbrev pub IsNew : Directory → Directory × Option Outcome → Type 0
IsNew d (d', some (file r)) = (has r d.files ≡ false) × (d'.files ≡ r ∷ d.files)
IsNew d (d', some (os_error e)) = d' ≡ d
IsNew d (d', none) = ⊥

module _ (n : Naming) (rounds : ℕ) (d : Directory) (names : List String) (r : String)
    (found : get_file_name n (name_fuel names) names ≡ some r) where
  round_taken :
      has r d.files ≡ true
      → create_unique_file n (suc rounds) d names ≡ create_unique_file n rounds d (names ++ r ∷ [])
  unfolding create_unique_file open_exclusive
  round_taken taken = rw (found, create_unique_file) (rw (taken, open_exclusive) refl)

  round_free : has r d.files ≡ false → IsNew d (create_unique_file n (suc rounds) d names)
  unfolding create_unique_file open_exclusive
  round_free free = elim (Option-cases (d.error r)) [
    | inl works ↦
        rw (found, create_unique_file)
          (rw (free, open_exclusive)
            (rw (works, open_exclusive)
              (free, rw (free, open_exclusive) (rw (works, open_exclusive) refl))))
    | inr (e, fails) ↦
        rw (found, create_unique_file)
          (rw (free, open_exclusive)
            (rw (fails, open_exclusive)
              (rw (free, open_exclusive) (rw (fails, open_exclusive) refl))))
  ]

module _ (n : Naming) where
  -- The loop of `createUniqueFile` for a list of names, of which `tried` were taken.
  unique_ends :
      (rounds : ℕ) (d : Directory) (names tried : List String) (x : String)
      → AllDistinct tried
      → All (λ v. has v names ≡ true) tried
      → All (λ v. has v d.files ≡ true) tried
      → suc (length d.files) ≤ rounds + length tried
      → IsNew d (create_unique_file n rounds d (x ∷ names))
  unique_ends zero d names tried x distinct met taken room =
      absurd (omega (arith, length-le_of_distinct tried d.files distinct taken))
  unique_ends (suc rounds) d names tried x distinct met taken room =
      let (r, e) = get_file_name_ends n (x ∷ names) (name_fuel (x ∷ names)) (omega arith) in
      let (free, _) = get_file_name_lem n (name_fuel (x ∷ names)) (x ∷ names) r e in
      elim (Bool-cases (has r d.files)) [
        | inr new ↦ round_free n rounds d (x ∷ names) r e new
        | inl old ↦ rw (round_taken n rounds d (x ∷ names) r e old) (
            unique_ends rounds d (names ++ r ∷ []) (r ∷ tried) x
              (not_met r names tried met free, distinct) (has-snoc r names, widen r names tried met)
              (old, taken) (omega arith))
      ]

  -- `createUniqueFile` ends, for every directory and every list of names, also one that does not
  -- show the directory as it is: with two rounds more than there are files it has made a file that
  -- was not there, and changed nothing else, or it tells an error of the system and has changed
  -- nothing. No other program is at work in the directory.
  pub create_unique_file-IsNew :
      (rounds : ℕ) (d : Directory) (names : List String)
      → length d.files + 2 ≤ rounds
      → IsNew d (create_unique_file n rounds d names)
  create_unique_file-IsNew rounds d (x ∷ names) enough =
      unique_ends rounds d names [] x tt tt tt (omega arith)
  create_unique_file-IsNew zero d [] enough = absurd (omega arith)
  create_unique_file-IsNew (suc rounds) d [] enough =
      let (r, e) = get_file_name_ends n [] (name_fuel []) (omega arith) in
      elim (Bool-cases (has r d.files)) [
        | inr new ↦ round_free n rounds d [] r e new
        | inl old ↦
            rw (round_taken n rounds d [] r e old)
              (unique_ends rounds d [] [] r tt tt tt (omega arith))
      ]
