-- ===== src/Bandwidth/Sleep.antt =====
-- The sleep that keeps a transfer at its rate, and the sizes at which its arithmetic overflows.
use native.Mathlib.Nat.{div-le_self, lt-div-mul-add}
use eqrcp.Base.{ℕ, ◌+◌, ◌-◌, ◌*◌, ◌/◌, ◌^◌, ◌≤◌, ◌<◌, ◌≡◌, ◌⊎◌, Option, none, some, arith}
use eqrcp.Base.Int.{ℤ, pos, negsuc, ◌≤ℤ◌}
use eqrcp.Base.Int64.{
  mul64_pos, quot64_pos, quot64_neg, sub64_pos, max_int64, wrap64-InInt64, wrap64_overflows,
}
use eqrcp.Base.Clock.{second}
use eqrcp.Bandwidth.Throttle.{expected_time, sleep_time}

-- The transfer of `b` bytes in `e` nanoseconds is slow enough for `l` bytes per second, to within
-- one nanosecond, once the sleep is over; or the sleep is the longest one, a second.
abbrev pub Paced : ℕ → ℕ → ℕ → Option ℤ → Type 0
Paced b e l none = b * second < (e + 1) * l
Paced b e l (some (pos d)) =
    (0 < d) × (d ≤ second) × ((d ≡ second) ⊎ (b * second < (e + d + 1) * l))
Paced b e l (some (negsuc d)) = ⊥

expected_time_fits :
    (b l : ℕ) → b * second ≤ max_int64 → expected_time (pos b) (pos l) ≡ pos (b * second / l)
unfolding expected_time
expected_time_fits b l h =
    rw (mul64_pos b second, wrap64-InInt64 (pos (b * second)) (omega arith))
      (quot64_pos (b * second) l h)

expected_time_overflows :
    (b l : ℕ) → 2 ^ 63 ≤ b * second → b * second < 2 ^ 64 → expected_time (pos b) (pos l) ≤ℤ pos 0
unfolding expected_time
expected_time_overflows b l lo hi =
    rw (mul64_pos b second, wrap64_overflows (b * second) lo hi)
      (quot64_neg (2 ^ 64 - 1 - b * second) l (omega arith))

late_enough : (n q e l : ℕ) → n < (q + 1) * l → q ≤ e → n < (e + 1) * l
late_enough n q e l h le = grind arith

after_rest : (n q e l : ℕ) → n < (q + 1) * l → e < q → n < (e + (q - e) + 1) * l
after_rest n q e l h lt = let k : e + (q - e) ≡ q = omega arith in rw k h

-- The last step of `Throttle`, for a registered job that is not probing: as long as the byte count times
-- 10⁹ and the elapsed time fit in an int64 and the limit is positive, the caller goes on at once only
-- where the bytes took long enough for the limit, and else sleeps for the rest of that time, or for one
-- second where the rest is longer.
pub sleep_time-Paced :
    (b e l : ℕ)
    → b * second ≤ max_int64
    → e ≤ max_int64
    → 0 < l
    → Paced b e l (sleep_time (pos b) (pos e) (pos l))
unfolding sleep_time
sleep_time-Paced b e l fits fit pos_l =
    rw
      (
        expected_time_fits b l fits,
        sub64_pos (b * second / l) e (omega (arith, div-le_self (b * second) l)) fit,
      )
      (ground (
        arith,
        lt-div-mul-add {a = b * second} pos_l,
        late_enough (b * second) (b * second / l) e l,
        after_rest (b * second) (b * second / l) e l,
      ))

-- Between 2⁶³ and 2⁶⁴ the product of the byte count and 10⁹ is taken for a negative number, and the last
-- step of `Throttle` makes no caller sleep, so that a transfer faster than its rate is not paced.
pub sleep_time_overflows :
    (b e l : ℕ)
    → 2 ^ 63 ≤ b * second
    → b * second < 2 ^ 64
    → (e + 1) * l ≤ b * second
    → (sleep_time (pos b) (pos e) (pos l) ≡ none)
      × ¬ Paced b e l (sleep_time (pos b) (pos e) (pos l))
unfolding sleep_time
sleep_time_overflows b e l lo hi fast =
    let quiet : sleep_time (pos b) (pos e) (pos l) ≡ none =
      ground (arith, expected_time_overflows b l lo hi) in
    (quiet, rw quiet (omega arith))
