-- ===== src/Server/Percent.antt =====
-- pkg/server: `transferPercent` and `transferIncomplete` (util.go), `SatisfiedRangeComplete` and
-- `CalculatePercent` (progress.go).
use eqrcp.Base.{
  ℕ, ◌+◌, ◌*◌, ◌/◌, ◌-◌, ◌≤◌, ◌<◌, ◌≡◌, ◌↔◌, refl, ap, ◌∙◌, inl, inr, Bool-cases, ltb, ltb→lt, Bool,
  true, false, ◌&&◌, ◌||◌, arith, if◌then◌else◌,
}
use eqrcp.Base.Int.{ℤ, pos, leb_ℤ, ltb_ℤ}
use eqrcp.Base.Int64.{
  max_int64, add64, sub64, mul64, quot64, sub64_pos, add64_pos, mul64_pos, quot64_pos,
  wrap64-InInt64,
}
use eqrcp.Base.Float.{Float64}

unfoldable pub transfer_percent : (finished total : ℤ) → ℤ
transfer_percent finished total =
    if leb_ℤ total (pos 0) || leb_ℤ finished (pos 0)
    then pos 0
    else if leb_ℤ total finished
    then pos 100
    else quot64 (mul64 finished (pos 100)) total

unfoldable pub transfer_incomplete : (finished total : ℤ) → Bool
transfer_incomplete finished total = ltb_ℤ (pos 0) total && ltb_ℤ finished total

unfoldable pub satisfied_range_complete : (start end written : ℤ) → Bool
satisfied_range_complete start end written =
    if ltb_ℤ end start || (ltb_ℤ start (pos 0) || (leb_ℤ end (pos 0) || leb_ℤ written (pos 0)))
    then false
    else leb_ℤ (add64 (sub64 end start) (pos 1)) written

unfoldable pub calculate_percent : Float64 → (finished total : ℤ) → ℤ
calculate_percent fl finished total =
    if leb_ℤ total (pos 0) || leb_ℤ finished (pos 0)
    then pos 0
    else if leb_ℤ total finished
    then pos 100
    else fl.to_int64
        (fl.mul (fl.div (fl.of_int64 finished) (fl.of_int64 total)) (fl.of_int64 (pos 100)))

-- Below the end and while a hundred times the count fits in an int64, the percentage is a quotient.
transfer_percent_below :
    (a b : ℕ)
    → 0 < a
    → a < b
    → a * 100 ≤ max_int64
    → transfer_percent (pos a) (pos b) ≡ pos (a * 100 / b)
unfolding transfer_percent
transfer_percent_below a b some_done below fits =
    let product : mul64 (pos a) (pos 100) ≡ pos (a * 100) =
      mul64_pos a 100 ∙ wrap64-InInt64 (pos (a * 100)) (ground arith) in
    rw product (ground (arith, quot64_pos (a * 100) b))

quotient_bounds : (a b : ℕ) → 0 < b → (a / b * b ≤ a) × (a < (a / b + 1) * b)
quotient_bounds a b h = grind arith

percent-lt : (a b q : ℕ) → a < b → q * b ≤ a * 100 → q < 100
percent-lt a b q lt le = elim (Bool-cases (ltb q 100)) [
  | inl small ↦ ltb→lt q 100 small
  | inr big ↦ let e : 100 ≤ q = ground arith in absurd (grind arith)
]

not_incomplete : (a b : ℕ) → a < b → transfer_incomplete (pos a) (pos b) ≡ false → ⊥
unfolding transfer_incomplete
not_incomplete a b lt e = ground arith

-- What `transfer_percent-IsFloor` says of a percentage.
abbrev pub IsFloor : ℕ → ℕ → ℕ → Type 0
IsFloor a b p =
    (transfer_percent (pos a) (pos b) ≡ pos p)
    × (p ≤ 100)
    × (a < b → (p * b ≤ a * 100) × (a * 100 < (p + 1) * b))
    × ((p ≡ 100) ↔ (transfer_incomplete (pos a) (pos b) ≡ false))

at_start : (a b : ℕ) → 0 < b → a ≡ 0 → IsFloor a b 0
unfolding transfer_percent transfer_incomplete
at_start a b h e = (
  ground arith,
  omega arith,
  λ l. (omega arith, omega arith),
  (λ f. absurd (omega arith), λ f. absurd (ground arith)),
)

at_end : (a b : ℕ) → 0 < b → b ≤ a → IsFloor a b 100
unfolding transfer_percent transfer_incomplete
at_end a b h le =
    (ground arith, omega arith, λ l. absurd (omega arith), (λ f. ground arith, λ f. refl))

-- The percentage is the floor of a hundred times the share that is done: it never shows 100 before
-- the end, and shows 100 at the end, while a hundred times the count fits in an int64.
pub transfer_percent-IsFloor : (a b : ℕ) → 0 < b → a * 100 ≤ max_int64 → (p : ℕ) × IsFloor a b p
transfer_percent-IsFloor a b h fits = elim (Bool-cases (ltb 0 a)) [
  | inr none_done ↦ (0, at_start a b h (ground arith))
  | inl some_done ↦ elim (Bool-cases (ltb a b)) [
    | inl below ↦
        let lt : a < b = ltb→lt a b below in
        let (lo, hi) = quotient_bounds (a * 100) b h in
        let q = a * 100 / b in
        let small : q < 100 = percent-lt a b q lt lo in
        (
          q,
          (
            transfer_percent_below a b (ltb→lt 0 a some_done) lt fits,
            omega arith,
            λ l. (lo, hi),
            (λ e. absurd (omega arith), λ e. absurd (not_incomplete a b lt e)),
          ),
        )
    | inr over ↦ (100, at_end a b h (ground arith))
  ]
]

-- A range of bytes, both ends included, is complete exactly when at least as many bytes were
-- written as it has and it is not the first byte alone, while its length fits in an int64: the range
-- `bytes=0-0` is never complete.
pub satisfied_range_complete_lem :
    (start end written : ℕ)
    → start ≤ end
    → end < max_int64
    → (satisfied_range_complete (pos start) (pos end) (pos written) ≡ true)
      ↔ ((end + 1 - start ≤ written) × (0 < end))
unfolding satisfied_range_complete
satisfied_range_complete_lem start end written le fits =
    let size : add64 (sub64 (pos end) (pos start)) (pos 1) ≡ pos (end - start + 1) =
      ap (λ d. add64 d (pos 1)) (sub64_pos end start (omega arith) (omega arith) ∙ ground arith)
      ∙ add64_pos (end - start) 1 (omega arith) in
    rw size (λ e. (ground arith, ground arith), λ (all, some_end). ground arith)
