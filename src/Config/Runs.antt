-- ===== src/Config/Runs.antt =====
-- The default configuration.
use gosrt.Common.{◌≡◌, refl, none}
use gosrt.Common.Int.{pos}
use gosrt.Config.Accepted.{WithinBounds, validate-WithinBounds}
use gosrt.Config.{
  Config, default_config, validate, check_before, check_sizes, check_after, same_bytes,
}

-- With a latency of a second for both directions.
abbrev slow : Config
unfolding default_config
slow = record default_config { latency = pos 1_000_000_000 }

slow_accepted : (validate slow).1 ≡ none
unfolding validate check_before check_sizes check_after same_bytes default_config
slow_accepted = refl

validate-WithinBounds_example : WithinBounds (validate slow).0
validate-WithinBounds_example = validate-WithinBounds slow slow_accepted
