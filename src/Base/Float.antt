-- ===== src/Base/Float.antt =====
-- The float64 arithmetic of the scheduler and the transfer jobs. Its rounding is a parameter
-- of every definition that uses it, and no law of it is assumed.
use eqrcp.Base.Int.{ℤ}

pub record Float64 : Type 1 where
  pub F : Type 0
  pub of_int64 : ℤ → F
  pub mul : F → F → F
  pub div : F → F → F
  pub to_int64 : F → ℤ
  pub seconds : ℤ → F
