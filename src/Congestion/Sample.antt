-- ===== src/Congestion/Sample.antt =====
-- A concrete float64, for the examples.
use gosrt.Common.{ℕ, ◌+◌, ◌-◌, ◌*◌, ◌/◌, ◌==◌, ltb}
use gosrt.Common.Int.{to_unsigned}
use gosrt.Congestion.Float.{Float64}

-- Whole numbers in place of floating-point ones.
abbrev pub numbers : Float64
numbers = record {
  F = ℕ;
  lit = λ n d. n / d;
  add_f = λ a b. a + b;
  sub_f = λ a b. a - b;
  mul_f = λ a b. a * b;
  div_f = λ a b. a / b;
  of_u64 = λ n. n;
  of_i64 = λ z. to_unsigned 64 z;
  to_u64 = λ n. n;
  to_u32 = λ n. n;
  abs_f = λ n. n;
  is_zero = λ n. n == 0;
  less_f = λ a b. ltb a b;
}
