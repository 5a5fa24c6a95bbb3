-- ===== src/Circular/Offset.antt =====
-- Comparison inside a window: the distance run forward from a base orders the numbers.
use gosrt.Common.{ℕ, ◌+◌, ◌-◌, ◌%◌, ◌^◌, ◌≤◌, ◌<◌, ◌≡◌, arith, ltb, leb, ◌==◌}
use gosrt.Circular.{Number, equals, lt, lte, gt, distance, inc, dec, new}

-- A sequence number: a valid number whose maximum is the 31-bit one of the packets.
pub record IsSeq (a : Number) : Type 0 where
  pub max_31 : a.max ≡ 2 ^ 31 - 1
  pub half : a.threshold ≡ 2 ^ 30 - 1
  pub in_range : a.value ≤ 2 ^ 31 - 1

-- How far `a` lies ahead of the base, going forward round the circle.
abbrev pub offset : Number → Number → ℕ
offset base a = (a.value + 2 ^ 31 - base.value) % 2 ^ 31

-- Within half a circle ahead of a base, the circular order is the order of the offsets.
pub lt-offset :
    (base a b : Number)
    → IsSeq base
    → IsSeq a
    → IsSeq b
    → offset base a < 2 ^ 30 - 1
    → offset base b < 2 ^ 30 - 1
    → lt a b ≡ ltb (offset base a) (offset base b)
unfolding lt
lt-offset base a b vs va vb ha hb = ground arith

pub equals-offset :
    (base a b : Number)
    → IsSeq base
    → IsSeq a
    → IsSeq b
    → equals a b ≡ (offset base a == offset base b)
unfolding equals
equals-offset base a b vs va vb = ground arith

pub lte-offset :
    (base a b : Number)
    → IsSeq base
    → IsSeq a
    → IsSeq b
    → offset base a < 2 ^ 30 - 1
    → offset base b < 2 ^ 30 - 1
    → lte a b ≡ leb (offset base a) (offset base b)
unfolding lte
lte-offset base a b vs va vb ha hb = ground arith

pub gt-offset :
    (base a b : Number)
    → IsSeq base
    → IsSeq a
    → IsSeq b
    → offset base a < 2 ^ 30 - 1
    → offset base b < 2 ^ 30 - 1
    → gt a b ≡ ltb (offset base b) (offset base a)
unfolding gt
gt-offset base a b vs va vb ha hb = ground arith

pub inc-IsSeq : (a : Number) → IsSeq a → IsSeq (inc a)
unfolding inc
inc-IsSeq a v = ground arith

pub dec-IsSeq : (a : Number) → IsSeq a → IsSeq (dec a)
unfolding dec
dec-IsSeq a v = ground arith

pub inc-offset :
    (base a : Number)
    → IsSeq base
    → IsSeq a
    → offset base a < 2 ^ 31 - 1
    → offset base (inc a) ≡ offset base a + 1
unfolding inc
inc-offset base a vs va h = ground arith

pub distance-offset :
    (a b : Number) → IsSeq a → IsSeq b → offset a b < 2 ^ 30 - 1 → distance a b ≡ offset a b
unfolding distance
distance-offset a b va vb h = ground arith

pub dec-offset :
    (base a : Number)
    → IsSeq base
    → IsSeq a
    → 0 < offset base a
    → offset base (dec a) ≡ offset base a - 1
unfolding dec
dec-offset base a vs va h = ground arith

pub offset_self : (a : Number) → IsSeq a → offset a a ≡ 0
offset_self a v = omega arith

-- Offsets from a base that has moved forward.
pub offset_rebase :
    (base base' a : Number)
    → IsSeq base
    → IsSeq base'
    → IsSeq a
    → offset base base' ≤ offset base a
    → offset base' a ≡ offset base a - offset base base'
offset_rebase base base' a vs vs' va h = ground arith

pub offset-lt : (base a : Number) → offset base a < 2 ^ 31
offset-lt base a = omega arith

-- The number that the parsers make of a sequence number's value.
pub new-IsSeq : (a : Number) → IsSeq a → new a.value 0x7fff_ffff ≡ a
unfolding new
new-IsSeq a v = ground arith
