-- ===== src/Base/Clock.antt =====
-- Go's `time.Time` as the nanoseconds since the zero time, and the differences of two times.
use eqrcp.Base.Tests.{◌==◌, if◌then◌else◌}
use eqrcp.Base.Int.{ℤ, pos, negsuc, ltb_ℤ, sub_ℕ}
use eqrcp.Base.Int64.{max_int64}
use Prim.Native.Nat.{ℕ}
use mathlib.Core.Bool.{Bool}

abbrev pub Time : Type 0
Time = ℕ

abbrev pub zero_time : Time
zero_time = 0

-- `t.IsZero()`.
abbrev pub is_zero : Time → Bool
is_zero t = t == zero_time

abbrev pub second : ℕ
second = 1_000_000_000

abbrev pub millisecond : ℕ
millisecond = 1_000_000

-- `t.Sub(u)`, which stays at the least or the greatest Duration where the difference is beyond it.
unfoldable pub time_sub : Time → Time → ℤ
time_sub t u =
    let d = sub_ℕ t u in
    if ltb_ℤ (pos max_int64) d
    then pos max_int64
    else if ltb_ℤ d (negsuc max_int64)
    then negsuc max_int64
    else d
