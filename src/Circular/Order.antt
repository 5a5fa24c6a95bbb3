-- ===== src/Circular/Order.antt =====
-- Comparison of circular numbers, and their distance.
use gosrt.Common.{ℕ, ◌+◌, ◌-◌, ◌≤◌, ◌<◌, ◌≡◌, arith, true, false, not}
use gosrt.Circular.{Number, IsValid, equals, lt, lte, gt, gte, distance, add}

-- Of two different numbers exactly one is less, and `gt`, `lte` and `gte` agree with that.
lt_exclusive :
    (a b : Number)
    → IsValid a
    → IsValid b
    → a.max ≡ b.max
    → equals a b ≡ false
    → (lt b a ≡ not (lt a b)) × (gt a b ≡ lt b a) × (lte a b ≡ lt a b) × (gte a b ≡ gt a b)
unfolding lt gt lte gte
lt_exclusive a b va vb m h = ground arith

-- A number up to the threshold ahead is greater, and its distance is the step, in both directions,
-- also where the step goes through the maximum.
lt-add :
    (a : Number) (k : ℕ)
    → IsValid a
    → 0 < k
    → k < a.threshold
    → (lt a (add a k) ≡ true)
      × (lt (add a k) a ≡ false)
      × (distance a (add a k) ≡ k)
      × (distance (add a k) a ≡ k)
unfolding lt distance add
lt-add a k v p h = ground arith

-- At the threshold itself, where the step does not pass the maximum, the distance is the way round
-- the other side, which is longer than the step.
distance_at_threshold :
    (a : Number)
    → IsValid a
    → 1 < a.max
    → a.value + a.threshold ≤ a.max
    → (distance a (add a a.threshold) ≡ a.max - a.threshold + 1)
      × (a.threshold < distance a (add a a.threshold))
unfolding distance add
distance_at_threshold a v h k = ground arith
