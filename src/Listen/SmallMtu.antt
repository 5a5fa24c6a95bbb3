-- ===== src/Listen/SmallMtu.antt =====
-- The test of a peer's MTU, by the listener and by the dialer.
use gosrt.Common.{
  ℕ, ◌+◌, ◌-◌, ◌^◌, ◌≤◌, ◌<◌, ◌≡◌, ◌↔◌, arith, true, false, IsU32, ltb, Bool-cases, inl, inr,
}
use gosrt.Config.{Config}
use gosrt.Listen.Request.{adjust_mss, too_small}

-- For an MTU of 32 bits: it counts as too small exactly where it is smaller than the own one and leaves
-- from 0 to 31 bytes for the payload.
pub too_small_exact :
    (c : Config) (mtu : ℕ)
    → IsU32 mtu
    → (too_small c mtu ≡ true) ↔ ((mtu < c.mss) × (44 ≤ mtu) × (mtu < 76))
unfolding too_small adjust_mss
too_small_exact c mtu h = elim (Bool-cases (ltb mtu c.mss)) [
  | inl e ↦ rw (too_small, adjust_mss, e) (ground arith)
  | inr e ↦ rw (too_small, adjust_mss, e) (ground arith)
]

-- An MTU smaller than the own one that does not hold the headers passes the test, with a payload size
-- that wrapped around.
pub adjust_mss_wraps :
    (c : Config) (mtu : ℕ)
    → mtu < c.mss
    → mtu < 44
    → (too_small c mtu ≡ false) × ((adjust_mss c mtu).payload_size ≡ 2 ^ 32 - 44 + mtu)
unfolding too_small adjust_mss
adjust_mss_wraps c mtu h k =
    let e : (ltb mtu c.mss ≡ true) = ground arith in
    rw (too_small, adjust_mss, e) (ground arith, omega arith)
