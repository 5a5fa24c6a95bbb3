-- ===== src/Circular.antt =====
-- circular/circular.go: numbers that wrap at a maximum, and their comparison.
-- The fields of Number and all intermediate values are uint32, so sums and differences wrap.
pub mod Arith
pub mod Order
pub mod Offset
mod Runs
use gosrt.Common.{ℕ, ◌+◌, ◌-◌, ◌/◌, ◌%◌, ◌^◌, ◌≤◌, ◌≡◌, Bool, true, false, not}
use gosrt.Common.{ltb, leb, ◌==◌, if◌then◌else◌, u32, sub32}

pub record Number : Type 0 where
  pub max : ℕ
  pub threshold : ℕ
  pub value : ℕ

pub val : Number → ℕ
val a = a.value

unfoldable pub equals : Number → Number → Bool
equals a b = a.value == b.value

unfoldable pub add : Number → ℕ → Number
add a b =
    let x = sub32 a.max a.value in
    if leb b x
    then record a { value = u32 (a.value + b) }
    else record a { value = sub32 (sub32 b x) 1 }

unfoldable pub new : ℕ → ℕ → Number
unfolding add
new x max =
    let c : Number = record { max = max; threshold = max / 2; value = 0 } in
    if ltb max x then add c x else record c { value = x }

-- The difference of the two values, the smaller from the larger.
abbrev pub gap : Number → Number → ℕ
gap a b = if ltb b.value a.value then sub32 a.value b.value else sub32 b.value a.value

unfoldable pub distance : Number → Number → ℕ
unfolding equals
distance a b =
    if equals a b
    then 0
    else (let d = gap a b in if leb a.threshold d then u32 (sub32 a.max d + 1) else d)

unfoldable pub lt : Number → Number → Bool
unfolding equals
lt a b =
    if equals a b
    then false
    else (let d = gap a b in
        let altb = (if ltb b.value a.value then false else true) in
        if ltb d a.threshold then altb else not altb)

unfoldable pub lte : Number → Number → Bool
unfolding equals lt
lte a b = if equals a b then true else lt a b

unfoldable pub gt : Number → Number → Bool
unfolding equals
gt a b =
    if equals a b
    then false
    else (let d = gap a b in
        let agtb = (if ltb b.value a.value then true else false) in
        if ltb d a.threshold then agtb else not agtb)

unfoldable pub gte : Number → Number → Bool
unfolding equals gt
gte a b = if equals a b then true else gt a b

unfoldable pub inc : Number → Number
inc a = if a.value == a.max then record a { value = 0 } else record a { value = u32 (a.value + 1) }

unfoldable pub dec : Number → Number
dec a = if a.value == 0 then record a { value = a.max } else record a { value = sub32 a.value 1 }

unfoldable pub sub : Number → ℕ → Number
sub a b =
    if leb b a.value
    then record a { value = sub32 a.value b }
    else record a { value = u32 (sub32 a.max (sub32 b a.value) + 1) }

-- The fields are uint32 values, the threshold is the one that `new` computes, and the value is
-- at most the maximum.
pub record IsValid (a : Number) : Type 0 where
  pub max_u32 : a.max ≤ 2 ^ 32 - 1
  pub half : a.threshold ≡ a.max / 2
  pub in_range : a.value ≤ a.max
