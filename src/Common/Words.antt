-- ===== src/Common/Words.antt =====
-- Go's fixed-width unsigned integers: a value below 2 ^ w, with the wrap-around written out.
use Prim.Native.Nat.{ℕ, ◌+◌, ◌-◌, ◌%◌, ◌^◌, ◌≤◌, ◌<◌}
use mathlib.Core.Path.{◌≡◌, ◌∙◌}
use native.Mathlib.Nat.{mod-eq_of_lt, mod-eq-sub-mod}
use native.Mathlib.Omega.{arith}

abbrev pub u32 : ℕ → ℕ
u32 x = x % 2 ^ 32

abbrev pub u64 : ℕ → ℕ
u64 x = x % 2 ^ 64

-- `a - b` of two uint32, and of two uint64.
abbrev pub sub32 : ℕ → ℕ → ℕ
sub32 a b = (a + 2 ^ 32 - b) % 2 ^ 32

abbrev pub sub64 : ℕ → ℕ → ℕ
sub64 a b = (a + 2 ^ 64 - b) % 2 ^ 64

abbrev pub IsByte : ℕ → Type 0
IsByte b = b < 2 ^ 8

abbrev pub IsU16 : ℕ → Type 0
IsU16 v = v < 2 ^ 16

abbrev pub IsU32 : ℕ → Type 0
IsU32 v = v < 2 ^ 32

-- The remainder of a number that is at most one round too large.
pub mod_round : (x m : ℕ) → m ≤ x → x < m + m → x % m ≡ x - m
mod_round x m h k = mod-eq-sub-mod h ∙ mod-eq_of_lt (omega arith)

pub mod_below : (x m : ℕ) → x < m → x % m ≡ x
mod_below x m h = mod-eq_of_lt h
