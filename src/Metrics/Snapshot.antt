-- ===== src/Metrics/Snapshot.antt =====
-- internal/metrics/metrics.go and regime.go: the derived state of one operator turn.
use flow_indicator.Base.{ℕ, Option}
use flow_indicator.Metrics.Numbers.{Value}
use flow_indicator.Metrics.Assessments.{Pollution}

-- The interaction state of the stream; `Regime` of internal/state/regime.go.
pub data Regime : Type 0 where
  flow drift recovery thrash reset : Regime

-- `RegimeRule`, by its constants.
pub data RegimeRule : Type 0 where
  unknown flow reset recovery_open : RegimeRule
  thrash_repair_depth thrash_recovery_chars thrash_obligation_inflation : RegimeRule
  drift_dereference drift_control_actions drift_serialization_obligation : RegimeRule

pub data RepairStatus : Type 0 where
  open_episode provisional durable reset_episode abandoned undetermined : RepairStatus

-- `RegimeLicense` is one sentence for each rule, and `Capabilities` a constant of the projector: both
-- are left out. The id 0, `none` and `unset` stand for the empty texts.
pub record Snapshot : Type 0 where
  pub seq : ℕ
  pub turn_index : ℕ
  pub epoch : ℕ
  pub regime : Option Regime
  pub regime_rule : RegimeRule
  pub user_chars : ℕ
  pub baseline_chars : Value
  pub baseline_turns : ℕ
  pub serialization_infl : Value
  pub quoted_fraction : Value
  pub repeat_fraction : Value
  pub forward_chars : ℕ
  pub control_chars : ℕ
  pub recovery_chars : ℕ
  pub restate_chars : ℕ
  pub other_chars : ℕ
  pub forward_share : Value
  pub control_burden : Value
  pub restate_share : Value
  pub unresolved_obligations : ℕ
  pub new_obligations : ℕ
  pub repeated_obligations : ℕ
  pub violated_obligations : ℕ
  pub satisfied_obligation : ℕ
  pub released_obligations : ℕ
  pub superseded_obligations : ℕ
  pub mean_repeat_count : Value
  pub median_candidate_age : Value
  pub repeat_ratio : Value
  pub pointer_success : ℕ
  pub pointer_failure : ℕ
  pub pointer_unknown : ℕ
  pub dereference : Value
  pub repair_id : ℕ
  pub repair_depth : ℕ
  pub repair_chars : ℕ
  pub repair_records : ℕ
  pub repair_seconds : Value
  pub repair_magnify : Value
  pub repair_status : Option RepairStatus
  pub expansions : ℕ
  pub pollution_status : Pollution
  pub recent_corrections : ℕ
  pub recent_interrupts : ℕ
  pub recent_dereference_misses : ℕ
  pub drift_window_turns : ℕ
