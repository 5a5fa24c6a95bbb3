-- ===== src/Circular/Arith.antt =====
-- Arithmetic on circular numbers: what `new`, `inc`, `dec`, `add` and `sub` return.
use gosrt.Common.{ℕ, ◌+◌, ◌-◌, ◌*◌, ◌%◌, ◌^◌, ◌≤◌, ◌<◌, ◌≡◌, ◌↔◌, arith, mod_below, mod_round}
use gosrt.Circular.{Number, IsValid, new, add, sub, inc, dec}

-- `new` makes a valid number exactly when the given value is below two rounds of the circle.
new-IsValid : (x max : ℕ) → x < 2 ^ 32 → max < 2 ^ 32 → IsValid (new x max) ↔ (x < 2 * (max + 1))
unfolding new
new-IsValid x max hx hm = (λ v. ground arith, λ h. ground arith)

-- A sum is the one modulo the size of the circle, as long as the step is at most one round.
add-value :
    (a : Number) (b : ℕ)
    → IsValid a
    → b ≤ a.max + 1
    → (IsValid (add a b)) × ((add a b).value ≡ (a.value + b) % (a.max + 1))
unfolding add
add-value a b v h =
    ground (arith, mod_below (a.value + b) (a.max + 1), mod_round (a.value + b) (a.max + 1))

pub sub-value :
    (a : Number) (b : ℕ)
    → IsValid a
    → b ≤ a.max + 1
    → (IsValid (sub a b)) × ((sub a b).value ≡ (a.value + (a.max + 1) - b) % (a.max + 1))
unfolding sub
sub-value a b v h = ground (
  arith,
  mod_below (a.value + (a.max + 1) - b) (a.max + 1),
  mod_round (a.value + (a.max + 1) - b) (a.max + 1),
)

-- Subtraction takes back an addition, over the whole range of steps that the circle has.
sub-add : (a : Number) (b : ℕ) → IsValid a → b ≤ a.max → sub (add a b) b ≡ a
unfolding add sub
sub-add a b v h = ground arith

pub dec-inc : (a : Number) → IsValid a → dec (inc a) ≡ a
unfolding inc dec
dec-inc a v = ground arith
