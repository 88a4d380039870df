-- ===== src/State/Projector/Measure.antt =====
-- The derived snapshot of one operator turn; `measure` of internal/state/projector.go.
use flow_indicator.Base.{
  ℕ, suc, ◌+◌, ◌-◌, Bool, Option, none, some, List, [], ◌∷◌, ltb, if◌then◌else◌, length, is_some,
}
use flow_indicator.Stream.{Record}
use flow_indicator.Observe.{Observation}
use flow_indicator.Metrics.{
  Buckets, Value, known, unset, baseline_chars, serialization_inflation, forward_work_share,
  control_plane_burden, restate_burden, mean_repeat_count, median_candidate_age,
  obligation_repeat_ratio, dereference_reliability, recovery_duration, repair_magnification,
}
use flow_indicator.Metrics.Snapshot
use flow_indicator.Metrics.Snapshot.{Snapshot}
use flow_indicator.State.Obligations.{
  Obligation, unresolved_candidates, repeated_unresolved, count_status, violated, met, withdrawn,
  replaced,
}
use flow_indicator.State.Repair.{Repair, end}
use flow_indicator.State.Episodes.{current_repair, active_repair}
use flow_indicator.State.Regime.{RegimeInput, drift_window_turns}
use flow_indicator.State.Projector.Defs.{Setup, Projector, TurnSample}

-- `countWithin`.
unfoldable pub count_within : List ℕ → ℕ → ℕ → ℕ
count_within [] now width = 0
count_within (m ∷ marks) now width =
    let rest = count_within marks now width in if ltb (now - m) width then suc rest else rest

abbrev no_buckets : Buckets
no_buckets = record { forward = 0; control = 0; recovery = 0; restate = 0; other = 0 }

abbrev add_buckets : Buckets → Buckets → Buckets
add_buckets a b = record {
  forward = a.forward + b.forward;
  control = a.control + b.control;
  recovery = a.recovery + b.recovery;
  restate = a.restate + b.restate;
  other = a.other + b.other;
}

-- `windowBuckets`.
unfoldable pub window_buckets : Buckets → List TurnSample → Buckets
window_buckets b [] = b
window_buckets b (t ∷ window) = window_buckets (add_buckets b t.buckets) window

abbrev repeats_of : List Obligation → List ℕ
repeats_of [] = []
repeats_of (ob ∷ obs) = ob.repeat_count ∷ repeats_of obs

abbrev ages_of : ℕ → List Obligation → List ℕ
ages_of turn [] = []
ages_of turn (ob ∷ obs) = (turn - ob.introduced_index) ∷ ages_of turn obs

-- The last part of `measure`: the episode that the snapshot reports.
unfoldable pub measure_repair : Repair → Snapshot → Snapshot
unfolding recovery_duration repair_magnification end
measure_repair r s = record s {
  repair_id = r.id;
  repair_depth = r.depth;
  repair_chars = r.chars;
  repair_records = r.records;
  repair_seconds = recovery_duration r.start (end r);
  repair_magnify = repair_magnification r.chars r.pointer_chars;
  repair_status = some r.status;
  expansions = r.expansions;
  pollution_status = r.pollution;
}

unfoldable pub measure_turn : Setup → Projector → Record → Observation → ℕ → Snapshot
unfolding count_within window_buckets baseline_chars serialization_inflation forward_work_share
    control_plane_burden restate_burden mean_repeat_count median_candidate_age
    obligation_repeat_ratio dereference_reliability unresolved_candidates repeated_unresolved
    count_status
measure_turn setup p rec obs introduced =
    let baseline =
      baseline_chars p.pointers.baseline setup.config.thresholds.minimum_control_baseline in
    let buckets = window_buckets no_buckets p.rolling.window in
    let unresolved = unresolved_candidates p.obligations in
    record {
      seq = rec.seq;
      turn_index = p.turn_index;
      epoch = p.epoch;
      regime = none;
      regime_rule = Snapshot.RegimeRule.unknown;
      user_chars = obs.chars;
      baseline_chars = baseline;
      baseline_turns = length p.pointers.baseline;
      serialization_infl = serialization_inflation setup.floats obs.chars baseline;
      quoted_fraction = known obs.quoted_fraction;
      repeat_fraction = known obs.repeat_fraction;
      forward_chars = buckets.forward;
      control_chars = buckets.control;
      recovery_chars = buckets.recovery;
      restate_chars = buckets.restate;
      other_chars = buckets.other;
      forward_share = forward_work_share buckets;
      control_burden = control_plane_burden buckets;
      restate_share = restate_burden buckets;
      unresolved_obligations = length unresolved;
      new_obligations = introduced;
      repeated_obligations = repeated_unresolved p.obligations;
      violated_obligations = count_status violated p.obligations;
      satisfied_obligation = count_status met p.obligations;
      released_obligations = count_status withdrawn p.obligations;
      superseded_obligations = count_status replaced p.obligations;
      mean_repeat_count = mean_repeat_count (repeats_of unresolved);
      median_candidate_age = median_candidate_age (ages_of p.turn_index unresolved);
      repeat_ratio =
          obligation_repeat_ratio (repeated_unresolved p.obligations) (length unresolved);
      pointer_success = p.pointers.succeeded;
      pointer_failure = p.pointers.failed;
      pointer_unknown = p.pointers.no_answer;
      dereference = dereference_reliability p.pointers.succeeded p.pointers.failed;
      repair_id = 0;
      repair_depth = 0;
      repair_chars = 0;
      repair_records = 0;
      repair_seconds = Value.unknown;
      repair_magnify = Value.unknown;
      repair_status = none;
      expansions = 0;
      pollution_status = unset;
      recent_corrections = count_within p.rolling.corrections p.turn_index drift_window_turns;
      recent_interrupts = count_within p.rolling.interrupts p.turn_index drift_window_turns;
      recent_dereference_misses = count_within p.pointers.failures p.turn_index drift_window_turns;
      drift_window_turns = drift_window_turns;
    }

-- `measure`.
unfoldable pub measure : Setup → Projector → Record → Observation → ℕ → Snapshot
unfolding measure_turn measure_repair current_repair
measure setup p rec obs introduced =
    let s = measure_turn setup p rec obs introduced in
    elim (current_repair p.episodes) [ none ↦ s | some r ↦ measure_repair r s ]

abbrev depth_of : Option Repair → ℕ
depth_of none = 0
depth_of (some r) = r.depth

abbrev chars_of : Option Repair → ℕ
chars_of none = 0
chars_of (some r) = r.chars

-- `regimeInput`.
unfoldable pub regime_input : Setup → Projector → Bool → Snapshot → RegimeInput
unfolding count_within repeated_unresolved
regime_input setup p is_reset s = record {
  is_reset = is_reset;
  repair_open = is_some p.episodes.active;
  repair_depth = depth_of (active_repair p.episodes);
  repair_chars = chars_of (active_repair p.episodes);
  baseline = s.baseline_chars;
  serialization_inflation = s.serialization_infl;
  forward_share = s.forward_share;
  repeated_unresolved_obligations = repeated_unresolved p.obligations;
  recent_corrections = count_within p.rolling.corrections p.turn_index drift_window_turns;
  recent_interrupts = count_within p.rolling.interrupts p.turn_index drift_window_turns;
  recent_dereference_failure = count_within p.pointers.failures p.turn_index drift_window_turns;
  recent_obligation_repeats =
      count_within p.rolling.obligation_repeats p.turn_index drift_window_turns;
  thresholds = setup.config.thresholds;
}
