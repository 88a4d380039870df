-- ===== src/Metrics/Bands.antt =====
-- internal/metrics/band.go: a coarse quality level for one measurement.
use flow_indicator.Base.{ℕ, Bool, true, false, ◌&&◌, ltb, leb, if◌then◌else◌}
use flow_indicator.Floats.{Float64, Floats, literal, of_int}
use flow_indicator.Metrics.Numbers.{Value, unknown, known}

-- `BandUnknown`, `BandGood`, `BandMid`, `BandBad`.
pub data Band : Type 0 where
  unmeasured good mid bad : Band

pub Band-discrete : Discrete Band
Band-discrete = hlevel

-- The position of a band in the source's iota.
abbrev pub rank : Band → ℕ
rank unmeasured = 0
rank good = 1
rank mid = 2
rank bad = 3

abbrev pub same_band : Band → Band → Bool
same_band unmeasured unmeasured = true
same_band good good = true
same_band mid mid = true
same_band bad bad = true
same_band _ _ = false

unfoldable pub band_ascending : Floats → Value → Float64 → Float64 → Band
band_ascending fl unknown g m = unmeasured
band_ascending fl (known x) g m = if fl.le g x then good else if fl.le m x then mid else bad

unfoldable pub band_descending : Floats → Value → Float64 → Float64 → Band
band_descending fl unknown g m = unmeasured
band_descending fl (known x) g m = if fl.le x g then good else if fl.le x m then mid else bad

unfoldable pub band_serialization : Floats → Value → Float64 → Float64 → Band
band_serialization fl unknown warn high = unmeasured
band_serialization fl (known x) warn high =
    if fl.lt (of_int 0) high && fl.le high x
    then bad
    else if fl.lt (of_int 0) warn && fl.le warn x
    then mid
    else good

unfoldable pub band_control_burden : Floats → Value → Band
unfolding band_descending
band_control_burden fl v = band_descending fl v (literal 25 100) (literal 50 100)

unfoldable pub band_forward_share : Floats → Value → Band
unfolding band_ascending
band_forward_share fl v = band_ascending fl v (literal 60 100) (literal 35 100)

unfoldable pub band_dereference : Floats → Value → Band
unfolding band_ascending
band_dereference fl v = band_ascending fl v (literal 80 100) (literal 50 100)

unfoldable pub band_repair_depth : ℕ → ℕ → Band
band_repair_depth depth thrash =
    if ltb 0 thrash && leb thrash depth then bad else if ltb 0 depth then mid else good
