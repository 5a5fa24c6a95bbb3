-- ===== src/Listen/Runs.antt =====
-- The test of the MTU on concrete values.
use gosrt.Common.{◌+◌, ◌-◌, ◌^◌, ◌≤◌, ◌<◌, ◌≡◌, ◌↔◌, arith, true, false}
use gosrt.Config.{default_config}
use gosrt.Listen.Request.{too_small, adjust_mss}
use gosrt.Listen.SmallMtu.{too_small_exact, adjust_mss_wraps}

too_small_exact_example :
    (too_small default_config 60 ≡ true) ↔ ((60 < default_config.mss) × (44 ≤ 60) × (60 < 76))
too_small_exact_example = too_small_exact default_config 60 (omega arith)

adjust_mss_wraps_example :
    (too_small default_config 10 ≡ false)
    × ((adjust_mss default_config 10).payload_size ≡ 2 ^ 32 - 44 + 10)
unfolding default_config
adjust_mss_wraps_example = adjust_mss_wraps default_config 10 (omega arith) (omega arith)
