-- ===== src/Congestion/Float.antt =====
-- Go's float64, which the code uses for rates, averages and the round-trip time: the type and its
-- operations are a parameter of the congestion control and of the connection. No law is assumed.
use gosrt.Common.{ℕ, Bool}
use gosrt.Common.Int.{ℤ}

pub record Float64 : Type 1 where
  pub F : Type 0
  -- The constant `n / d`.
  pub lit : ℕ → ℕ → F
  pub add_f : F → F → F
  pub sub_f : F → F → F
  pub mul_f : F → F → F
  pub div_f : F → F → F
  pub of_u64 : ℕ → F
  pub of_i64 : ℤ → F
  pub to_u64 : F → ℕ
  pub to_u32 : F → ℕ
  pub abs_f : F → F
  pub is_zero : F → Bool
  pub less_f : F → F → Bool
