-- ===== src/Relay/Flow.antt =====
-- `_AdaptiveFlow` of core/voidz_core/relay/xhttp.py: how much may wait in a write buffer. The time
-- of a drain is in microseconds.
pub mod Range
use voidz.Prelude.{ℕ, ◌+◌, ◌*◌, ◌/◌, min, max, Bool, List, [], ◌∷◌, ltb, if◌then◌else◌}

abbrev pub flow_min_hw : ℕ
flow_min_hw = 256 * 1024

abbrev pub flow_max_hw : ℕ
flow_max_hw = 32 * 1024 * 1024

abbrev pub flow_start_hw : ℕ
flow_start_hw = 2 * 1024 * 1024

abbrev pub flow_fast_drain : ℕ
flow_fast_drain = 12000

abbrev pub flow_slow_drain : ℕ
flow_slow_drain = 40000

unfoldable pub should_drain : ℕ → ℕ → Bool
should_drain buf_size high_water = ltb high_water buf_size

-- The high water after a drain that took `elapsed`.
unfoldable pub adjust : ℕ → ℕ → ℕ
adjust elapsed high_water =
    if ltb elapsed flow_fast_drain
    then min flow_max_hw (high_water * 2 + 65536)
    else if ltb flow_slow_drain elapsed
    then max flow_min_hw (high_water / 2)
    else high_water

unfoldable pub adjust_all : List ℕ → ℕ → ℕ
adjust_all [] high_water = high_water
adjust_all (elapsed ∷ rest) high_water = adjust_all rest (adjust elapsed high_water)
