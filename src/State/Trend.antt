-- ===== src/State/Trend.antt =====
-- internal/state/trend.go: metrics that cross between quality bands and stay across.
--
-- The tracker's map has one state for each of the five banded metrics, created empty on first use,
-- so it is a list of five states in the order of `trendMetrics`.
pub mod Crossing
use flow_indicator.Base.{
  ℕ, suc, ◌+◌, ◌≤◌, Bool, true, false, Option, none, some, List, [], ◌∷◌, ltb, leb, if◌then◌else◌,
}
use flow_indicator.Floats.{Floats}
use flow_indicator.Config.{Config}
use flow_indicator.Metrics.{
  Band, unmeasured, rank, same_band, band_serialization, band_control_burden, band_forward_share,
  band_dereference, band_repair_depth,
}
use flow_indicator.Metrics.Snapshot.{Snapshot}

pub data TrendMetric : Type 0 where
  serialization_inflation control_plane_burden forward_work_share dereference repair_depth :
      TrendMetric

unfoldable pub band_of : Floats → Config → Snapshot → TrendMetric → Band
unfolding band_serialization band_control_burden band_forward_share band_dereference
    band_repair_depth
band_of fl cfg s serialization_inflation =
    band_serialization fl s.serialization_infl cfg.thresholds.serialization_warn
      cfg.thresholds.serialization_high
band_of fl cfg s control_plane_burden = band_control_burden fl s.control_burden
band_of fl cfg s forward_work_share = band_forward_share fl s.forward_share
band_of fl cfg s dereference = band_dereference fl s.dereference
band_of fl cfg s repair_depth = band_repair_depth s.repair_depth cfg.thresholds.thrash_repair_depth

pub record TrendState : Type 0 where
  pub confirmed : Band
  pub candidate : Band
  pub held : ℕ

abbrev pub new_state : TrendState
new_state = record { confirmed = unmeasured; candidate = unmeasured; held = 0 }

pub record Trend : Type 0 where
  pub metric : TrendMetric
  pub from : Band
  pub to : Band
  pub turns : ℕ

-- `Degrading`: `t.To > t.From`.
unfoldable pub degrading : Trend → Bool
degrading t = ltb (rank t.from) (rank t.to)

abbrev pub advance : TrendState → Band → TrendState
advance st b =
    if same_band b st.candidate
    then record st { held = st.held + 1 }
    else record st { candidate = b; held = 1 }

-- The body of the loop of `observe`, for one metric.
unfoldable pub observe_metric : ℕ → TrendMetric → Band → TrendState → TrendState × Option Trend
observe_metric durability m b st =
    if same_band b unmeasured
    then (st, none)
    else if same_band st.confirmed unmeasured
    then (record st { confirmed = b }, none)
    else if same_band b st.confirmed
    then (record st { candidate = unmeasured; held = 0 }, none)
    else let st' = advance st b in
      if leb durability st'.held
      then (
        record { confirmed = b; candidate = unmeasured; held = 0 },
        some (record { metric = m; from = st.confirmed; to = b; turns = st'.held }),
      )
      else (st', none)

pub record TrendTracker : Type 0 where
  pub serialization : TrendState
  pub control : TrendState
  pub forward : TrendState
  pub dereference : TrendState
  pub repair : TrendState

abbrev pub new_trend_tracker : TrendTracker
new_trend_tracker = record {
  serialization = new_state;
  control = new_state;
  forward = new_state;
  dereference = new_state;
  repair = new_state;
}

abbrev cons_option : Option Trend → List Trend → List Trend
cons_option none ts = ts
cons_option (some t) ts = t ∷ ts

-- `observe`.
unfoldable pub observe : Floats → Config → Snapshot → TrendTracker → TrendTracker × List Trend
unfolding observe_metric band_of
observe fl cfg s tt0 =
    let d = cfg.window.trend_durability_turns in
    let a =
      observe_metric d serialization_inflation (band_of fl cfg s serialization_inflation)
        tt0.serialization in
    let b =
      observe_metric d control_plane_burden (band_of fl cfg s control_plane_burden) tt0.control in
    let c = observe_metric d forward_work_share (band_of fl cfg s forward_work_share) tt0.forward in
    let e = observe_metric d dereference (band_of fl cfg s dereference) tt0.dereference in
    let f = observe_metric d repair_depth (band_of fl cfg s repair_depth) tt0.repair in
    (
      record { serialization = a.0; control = b.0; forward = c.0; dereference = e.0; repair = f.0 },
      cons_option a.1 (cons_option b.1 (cons_option c.1 (cons_option e.1 (cons_option f.1 [])))),
    )
