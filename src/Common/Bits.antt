-- ===== src/Common/Bits.antt =====
-- Masks as arithmetic, for the flag and field masks that the code uses.
use Prim.Native.Nat.{
  ℕ, zero, suc, ◌+◌, ◌*◌, ◌/◌, ◌%◌, ◌^◌, ◌≤◌, ◌<◌, min, bit_and, bit_or, digits, bitwise,
  bit_and-bitwise, max, bit_or-bitwise,
}
use mathlib.Core.Path.{◌≡◌, refl, sym, ap, ◌∙◌, ◌≡⟨◌⟩◌, ◌∎}
use mathlib.Core.Bool.{Bool, true, false}
use mathlib.Core.Logic.{ite}
use native.Mathlib.Decide.{ℕ_discrete}
use native.Mathlib.Nat.{div-add-mod, mul-add-mod_self_left, mod-eq_of_lt, mod-lt, pow-suc}
use native.Mathlib.Omega.{arith}

-- Over a small range two functions are compared by evaluation.
module _ (f g : ℕ → ℕ) where
  unfoldable pub agree_below : ℕ → Bool
  unfolding ℕ_discrete
  agree_below zero = true
  agree_below (suc n) = ite (ℕ_discrete (f n) (g n)) (agree_below n) false

  pub agree_below→eq : (n : ℕ) → agree_below n ≡ true → (i : ℕ) → i < n → f i ≡ g i
  unfolding agree_below
  agree_below→eq zero e i h = absurd (omega arith)
  agree_below→eq (suc n) e i h = ground (arith, agree_below→eq n (ground arith) i)

-- The operations on bits go through the digits of the first number: `last` answers for what the
-- second has beyond them, `pick` for one digit of each.
module _ (last : ℕ → ℕ) (pick : ℕ → ℕ → ℕ) where
  -- Any fuel from the number itself on is enough.
  digits_enough :
      (fuel more x y : ℕ)
      → x ≤ fuel
      → x ≤ more
      → digits last pick fuel x y ≡ digits last pick more x y
  digits_enough zero more zero y u v = elim more as (λ m. last y ≡ digits last pick m zero y) [
    | zero ↦ refl
    | suc m ↦ refl
  ]
  digits_enough zero more (suc x) y u v = absurd (omega arith)
  digits_enough (suc fuel) zero zero y u v = refl
  digits_enough (suc fuel) zero (suc x) y u v = absurd (omega arith)
  digits_enough (suc fuel) (suc more) zero y u v = refl
  digits_enough (suc fuel) (suc more) (suc x) y u v =
      let tail = digits_enough fuel more (suc x / 2) (y / 2) (omega arith) (omega arith) in
      ap (λ (t : ℕ). t * 2 + pick (suc x % 2) (y % 2)) tail

  bitwise_step :
      (x y : ℕ)
      → bitwise last pick (suc x) y
        ≡ bitwise last pick (suc x / 2) (y / 2) * 2 + pick (suc x % 2) (y % 2)
  bitwise_step x y =
      ap (λ (t : ℕ). t * 2 + pick (suc x % 2) (y % 2))
        (digits_enough x (suc x / 2) (suc x / 2) (y / 2) (omega arith) (omega arith))

-- The remainder by a power of two, one digit at a time.
mod_double : (a m : ℕ) → 0 < m → a % (m * 2) ≡ a / 2 % m * 2 + a % 2
mod_double a m h =
    a % (m * 2)
    ≡⟨ ap (λ (t : ℕ). t % (m * 2)) parts ⟩ (m * 2 * (a / 2 / m) + (a / 2 % m * 2 + a % 2)) % (m * 2)
    ≡⟨ mul-add-mod_self_left (m * 2) (a / 2 / m) _ ⟩ (a / 2 % m * 2 + a % 2) % (m * 2)
    ≡⟨ mod-eq_of_lt (omega (arith, mod-lt (a / 2) {m = m} h)) ⟩ a / 2 % m * 2 + a % 2 ∎
  where
    parts : a ≡ m * 2 * (a / 2 / m) + (a / 2 % m * 2 + a % 2)
    parts = omega (arith, div-add-mod (a / 2) m)

pow-pos : (k : ℕ) → 0 < 2 ^ k
pow-pos zero = omega arith
pow-pos (suc k) = omega (arith, pow-pos k, pow-suc 2 k)

double_pow : (k : ℕ) → 2 ^ suc k ≡ 2 ^ k + 2 ^ k
double_pow k = omega (arith, pow-suc 2 k)

-- `and`, one digit at a time.
and_digit : (x y : ℕ) → bit_and x y ≡ bit_and (x / 2) (y / 2) * 2 + min (x % 2) (y % 2)
and_digit zero y =
    let none_left = bit_and-bitwise 0 (y / 2) in bit_and-bitwise 0 y ∙ omega (arith, none_left)
and_digit (suc x) y =
    let half = bit_and-bitwise (suc x / 2) (y / 2) in
    bit_and-bitwise (suc x) y ∙ (bitwise_step (λ _. zero) min x y ∙ omega (arith, half))

no_mask : (bound x : ℕ) → x ≤ bound → bit_and x 0 ≡ 0
no_mask bound zero u = bit_and-bitwise 0 0
no_mask zero (suc x) u = absurd (omega arith)
no_mask (suc bound) (suc x) u =
    let rest = no_mask bound (suc x / 2) (omega arith) in and_digit (suc x) 0 ∙ omega (arith, rest)

-- A mask of the `k` lowest bits gives the remainder by 2 ^ k.
pub bit_and-low : (k x m : ℕ) → m + 1 ≡ 2 ^ k → bit_and x m ≡ x % 2 ^ k
bit_and-low zero x m e =
    ap (λ (t : ℕ). bit_and x t) (omega arith) ∙ (no_mask x x (omega arith) ∙ omega arith)
bit_and-low (suc k) x m e =
    let rest = bit_and-low k (x / 2) (m / 2) (omega (arith, double_pow k)) in
    let odd : (m % 2 ≡ 1) = omega (arith, double_pow k, pow-pos k) in
    let split = mod_double x (2 ^ k) (pow-pos k) in
    and_digit x m ∙ (omega (arith, rest, odd, split) ∙ ap (λ (t : ℕ). x % t) (sym (pow-suc 2 k)))

-- The masks of the sequence number, of the message number, and of a control type.
pub bit_and_31 : (a : ℕ) → bit_and a 0x7fff_ffff ≡ a % 2 ^ 31
bit_and_31 a = bit_and-low 31 a 0x7fff_ffff refl

pub bit_and_26 : (a : ℕ) → bit_and a 0x3ff_ffff ≡ a % 2 ^ 26
bit_and_26 a = bit_and-low 26 a 0x3ff_ffff refl

pub bit_and_15 : (a : ℕ) → bit_and a 0x7fff ≡ a % 2 ^ 15
bit_and_15 a = bit_and-low 15 a 0x7fff refl

-- `or`, one digit at a time.
or_digit : (x y : ℕ) → bit_or x y ≡ bit_or (x / 2) (y / 2) * 2 + max (x % 2) (y % 2)
or_digit zero y =
    let remains = bit_or-bitwise 0 (y / 2) in bit_or-bitwise 0 y ∙ omega (arith, remains)
or_digit (suc x) y =
    let half = bit_or-bitwise (suc x / 2) (y / 2) in
    bit_or-bitwise (suc x) y ∙ (bitwise_step (λ t. t) max x y ∙ omega (arith, half))

-- Setting a bit above the number is an addition.
pub bit_or-high : (k x m : ℕ) → m ≡ 2 ^ k → x < m → bit_or x m ≡ x + m
bit_or-high zero zero m e u = bit_or-bitwise 0 m ∙ omega arith
bit_or-high zero (suc x) m e u = absurd (omega arith)
bit_or-high (suc k) x m e u =
    let rest =
      bit_or-high k (x / 2) (m / 2) (omega (arith, double_pow k)) (omega (arith, double_pow k)) in
    or_digit x m ∙ omega (arith, rest, double_pow k)

pub bit_or_31 : (a : ℕ) → a < 2 ^ 31 → bit_or a 0x8000_0000 ≡ a + 0x8000_0000
bit_or_31 a h = bit_or-high 31 a 0x8000_0000 refl h

-- A mask bounds what passes it.
bit_and-le_bound : (bound x m : ℕ) → x ≤ bound → bit_and x m ≤ m
bit_and-le_bound bound zero m u = omega (arith, bit_and-bitwise 0 m)
bit_and-le_bound zero (suc x) m u = absurd (omega arith)
bit_and-le_bound (suc bound) (suc x) m u =
    let rest = bit_and-le_bound bound (suc x / 2) (m / 2) (omega arith) in
    omega (arith, rest, and_digit (suc x) m)

pub bit_and-le : (x m : ℕ) → bit_and x m ≤ m
bit_and-le x m = bit_and-le_bound x x m (omega arith)
