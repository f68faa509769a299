-- ===== src/Server/FileName/Ends.antt =====
-- The loop of `getFileName` ends, and what it returns.
use eqrcp.Base.{
  ℕ, zero, suc, ◌+◌, ◌*◌, ◌-◌, ◌≤◌, ◌<◌, ◌≡◌, refl, ap, ◌∙◌, inl, inr, String, true, false, List,
  [], ◌∷◌, some, length, All, get_elem?, arith, eq_iff, Bool-cases, Option-cases, ◌=ₛ◌,
}
use eqrcp.Base.Distinct.{has, AllDistinct, length-le_of_distinct}
use eqrcp.Server.FileName.{name_fuel, Naming, scan, get_file_name}

module _ (n : Naming) where
  -- The variants below `k`, the last first.
  abbrev variants : ℕ → List String
  variants zero = []
  variants (suc k) = n.numbered (suc k) ∷ variants k

  has-variants : (j k : ℕ) → k ≤ j → has (n.numbered (suc j)) (variants k) ≡ false
  has-variants j zero le = refl
  has-variants j (suc k) le = ground (
    arith,
    has-variants j k,
    eq_iff (n.numbered (suc j)) (n.numbered (suc k)),
    n.numbered_inj (suc j) (suc k),
  )

  variants-AllDistinct : (k : ℕ) → AllDistinct (variants k)
  variants-AllDistinct zero = tt
  variants-AllDistinct (suc k) = (has-variants k k (omega arith), variants-AllDistinct k)

  length-variants : (k : ℕ) → length (variants k) ≡ k
  length-variants zero = refl
  length-variants (suc k) = omega (arith, length-variants k)

  -- The current name after k collisions: the given one, or a variant.
  abbrev current : ℕ → String
  current zero = n.name
  current (suc k) = n.numbered (suc k)

  -- The variants that have collided before.
  abbrev earlier : ℕ → List String
  earlier zero = []
  earlier (suc k) = variants k

  abbrev Taken : List String → List String → Type 0
  Taken names vs = All (λ v. has v names ≡ true) vs

  Taken-le : (names : List String) (k : ℕ) → Taken names (variants k) → k ≤ length names
  Taken-le names k h = omega (
    arith,
    length-variants k,
    length-le_of_distinct (variants k) names (variants-AllDistinct k) h,
  )

  Taken-variants :
      (names : List String) (k : ℕ)
      → Taken names (earlier k)
      → has (current k) names ≡ true
      → Taken names (variants k)
  Taken-variants names zero h t = tt
  Taken-variants names (suc k) h t = (t, h)

  has-get_elem? :
      (a : String) (names : List String) (i : ℕ) → get_elem? names i ≡ some a → has a names ≡ true
  has-get_elem? a [] i e = cc
  has-get_elem? a (x ∷ xs) zero e = ground (arith, eq_iff a x)
  has-get_elem? a (x ∷ xs) (suc i) e = ground (arith, has-get_elem? a xs i)

  length-get_elem? :
      (a : String) (names : List String) (i : ℕ) → get_elem? names i ≡ some a → i < length names
  length-get_elem? a [] i e = cc
  length-get_elem? a (x ∷ xs) zero e = omega arith
  length-get_elem? a (x ∷ xs) (suc i) e = omega (arith, length-get_elem? a xs i e)

  mul_suc : (c m : ℕ) → suc c * m ≡ c * m + m
  mul_suc c m = grind arith

  scan_ends :
      (fuel : ℕ) (names : List String) (k i c : ℕ)
      → Taken names (earlier k)
      → suc (length names) ≤ k + c
      → c * suc (length names) + (length names - i) < fuel
      → (r : String) × (scan n fuel names (current k) (suc k) i ≡ some r)
  unfolding scan
  scan_ends zero names k i c taken room enough = absurd (omega arith)
  scan_ends (suc fuel) names k i c taken room enough = elim (Option-cases (get_elem? names i)) [
    | inl e ↦ (current k, rw (e, scan) refl)
    | inr (x, e) ↦
        let short = length-get_elem? x names i e in
        elim (Bool-cases (current k =ₛ x)) [
          | inr other ↦
              let (r, f) = scan_ends fuel names k (suc i) c taken room (omega arith) in
              (r, rw (e, scan) (rw other f))
          | inl same ↦
              let there =
                has-get_elem? (current k) names i
                  (e ∙ ap some (ground (arith, eq_iff (current k) x))) in
              let all = Taken-variants names k taken there in
              let spent : c ≡ suc (c - 1) = omega (arith, Taken-le names k all) in
              let (r, f) = scan_ends fuel names (suc k) 1 (c - 1) all (omega arith) (
                omega (
                  arith,
                  mul_suc (c - 1) (suc (length names)),
                  ap (λ (m : ℕ). m * suc (length names)) spent,
                )) in
              (r, rw (e, scan) (rw same f))
        ]
  ]

  -- `getFileName` ends for every list of names, though a collision makes it start over: a name of
  -- the list can stop only one variant.
  pub get_file_name_ends :
      (names : List String) (fuel : ℕ)
      → name_fuel names ≤ fuel
      → (r : String) × (get_file_name n fuel names ≡ some r)
  unfolding get_file_name
  get_file_name_ends names fuel enough =
      scan_ends fuel names 0 0 (suc (length names)) tt (omega arith) (omega arith)
