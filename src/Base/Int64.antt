-- ===== src/Base/Int64.antt =====
-- Go's int64 (and `int` and `time.Duration`, which are 64 bits wide too): an integer with its
-- wrap-around written out.
use eqrcp.Base.Tests.{ltb, if◌then◌else◌}
use eqrcp.Base.Int.{ℤ, pos, sub_ℕ, negsuc, ◌≤ℤ◌, ◌+ℤ◌, ◌-ℤ◌, ◌*ℤ◌, quot}
use Prim.Native.Nat.{ℕ, suc, ◌+◌, ◌*◌, ◌/◌, ◌-◌, ◌%◌, ◌^◌, ◌≤◌, ◌<◌}
use mathlib.Core.Path.{◌≡◌, ap, ◌∙◌}
use native.Mathlib.Nat.{div-le_self}
use native.Mathlib.Omega.{arith}

-- The two's-complement word of an integer, and the integer that a word stands for.
abbrev to_word : ℤ → ℕ
to_word (pos n) = n % 2 ^ 64
to_word (negsuc n) = 2 ^ 64 - 1 - n % 2 ^ 64

abbrev of_word : ℕ → ℤ
of_word w = if ltb w (2 ^ 63) then pos w else negsuc (2 ^ 64 - 1 - w)

unfoldable pub wrap64 : ℤ → ℤ
wrap64 a = of_word (to_word a)

unfoldable pub add64 : ℤ → ℤ → ℤ
add64 a b = wrap64 (a +ℤ b)

unfoldable pub sub64 : ℤ → ℤ → ℤ
sub64 a b = wrap64 (a -ℤ b)

unfoldable pub mul64 : ℤ → ℤ → ℤ
mul64 a b = wrap64 (a *ℤ b)

-- The one quotient that overflows is that of the least integer by -1, which wraps.
unfoldable pub quot64 : ℤ → ℤ → ℤ
quot64 a b = wrap64 (quot a b)

abbrev pub max_int64 : ℕ
max_int64 = 2 ^ 63 - 1

abbrev pub InInt64 : ℤ → Type 0
InInt64 a = (negsuc max_int64 ≤ℤ a) × (a ≤ℤ pos max_int64)

pub wrap64-InInt64 : (a : ℤ) → InInt64 a → wrap64 a ≡ a
unfolding wrap64
wrap64-InInt64 (pos n) h = ground arith
wrap64-InInt64 (negsuc n) h = ground arith

-- Words that are at least half the range stand for negative integers.
pub wrap64_overflows : (n : ℕ) → 2 ^ 63 ≤ n → n < 2 ^ 64 → wrap64 (pos n) ≡ negsuc (2 ^ 64 - 1 - n)
unfolding wrap64
wrap64_overflows n lo hi = ground arith

*ℤ_pos : (a b : ℕ) → pos a *ℤ pos b ≡ pos (a * b)
unfolding ◌*ℤ◌
*ℤ_pos a b = ground arith

pub mul64_pos : (a b : ℕ) → mul64 (pos a) (pos b) ≡ wrap64 (pos (a * b))
unfolding mul64
mul64_pos a b = ap wrap64 (*ℤ_pos a b)

pub quot64_pos : (a b : ℕ) → a ≤ max_int64 → quot64 (pos a) (pos b) ≡ pos (a / b)
unfolding quot64 quot
quot64_pos a b h = wrap64-InInt64 (pos (a / b)) (omega (arith, div-le_self a b))

-- A negative number over a positive one is not positive.
pub quot64_neg : (a b : ℕ) → a < max_int64 → quot64 (negsuc a) (pos b) ≤ℤ pos 0
unfolding quot64 quot
quot64_neg a b h =
    let q = sub_ℕ 0 (suc a / b) in
    let e : wrap64 q ≡ q = wrap64-InInt64 q (ground (arith, div-le_self (suc a) b)) in
    rw e (ground arith)

pub add64_fits : (a b : ℤ) → InInt64 (a +ℤ b) → add64 a b ≡ a +ℤ b
unfolding add64
add64_fits a b h = wrap64-InInt64 (a +ℤ b) h

pub sub64_pos : (a b : ℕ) → a ≤ max_int64 → b ≤ max_int64 → sub64 (pos a) (pos b) ≡ sub_ℕ a b
unfolding sub64 ◌-ℤ◌
sub64_pos a b h k = wrap64-InInt64 (sub_ℕ (a + 0) (0 + b)) (ground arith) ∙ ground arith

pub add64_pos : (a b : ℕ) → a + b ≤ max_int64 → add64 (pos a) (pos b) ≡ pos (a + b)
unfolding add64 ◌+ℤ◌
add64_pos a b h = ap wrap64 (ground arith) ∙ wrap64-InInt64 (pos (a + b)) (ground arith)
