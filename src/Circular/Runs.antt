-- ===== src/Circular/Runs.antt =====
-- Tests of the circular numbers, and the theorems at concrete numbers.
use gosrt.Common.{ℕ, ◌+◌, ◌-◌, ◌%◌, ◌^◌, ◌≡◌, refl, arith, ltb}
use gosrt.Circular.{Number, IsValid, new, lt, sub, inc, dec}
use gosrt.Circular.Arith.{sub-value}
use gosrt.Circular.Offset.{offset, lt-offset}

-- Ten places, one before the end.
abbrev near_end : Number
near_end = record { max = 9; threshold = 4; value = 8 }

near_end-IsValid : IsValid near_end
near_end-IsValid = omega arith

abbrev seq : ℕ → Number
seq v = record { max = 2 ^ 31 - 1; threshold = 2 ^ 30 - 1; value = v }

inc_wraps : inc (inc near_end) ≡ record near_end { value = 0 }
unfolding inc
inc_wraps = refl

dec_wraps : dec (new 0 9) ≡ record near_end { value = 9 }
unfolding dec new
dec_wraps = refl

-- Twenty is two rounds of ten: the value leaves the range.
new_too_far : new 25 9 ≡ record near_end { value = 15 }
unfolding new
new_too_far = refl

sub-value_example :
    (IsValid (sub near_end 9)) × ((sub near_end 9).value ≡ (8 + (9 + 1) - 9) % (9 + 1))
sub-value_example = sub-value near_end 9 near_end-IsValid (omega arith)

lt-offset_example :
    lt (seq (2 ^ 31 - 1)) (seq 2)
    ≡ ltb (offset (seq (2 ^ 31 - 2)) (seq (2 ^ 31 - 1))) (offset (seq (2 ^ 31 - 2)) (seq 2))
lt-offset_example =
    lt-offset (seq (2 ^ 31 - 2)) (seq (2 ^ 31 - 1)) (seq 2) (omega arith) (omega arith)
      (omega arith) (omega arith) (omega arith)
