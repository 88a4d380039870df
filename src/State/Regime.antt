-- ===== src/State/Regime.antt =====
-- internal/state/regime.go: the regime rules, in their fixed precedence.
pub mod Rules
use flow_indicator.Base.{
  ℕ, ◌+◌, Bool, true, false, ◌&&◌, Option, none, some, ltb, leb, if◌then◌else◌,
}
use flow_indicator.Floats.{Floats, Float64, literal, of_int, times}
use flow_indicator.Metrics.{Value, unknown, known, at_least, at_most}
use flow_indicator.Metrics.Snapshot.{
  Regime, RegimeRule, flow, drift, recovery, thrash, reset, recovery_open, thrash_repair_depth,
  thrash_recovery_chars, thrash_obligation_inflation, drift_dereference, drift_control_actions,
  drift_serialization_obligation,
}
use flow_indicator.Config.{Thresholds}

abbrev pub thrash_forward_share : Float64
thrash_forward_share = literal 40 100

abbrev pub drift_window_turns : ℕ
drift_window_turns = 8

abbrev pub drift_event_count : ℕ
drift_event_count = 2

pub record RegimeInput : Type 0 where
  pub is_reset : Bool
  pub repair_open : Bool
  pub repair_depth : ℕ
  pub repair_chars : ℕ
  pub baseline : Value
  pub serialization_inflation : Value
  pub forward_share : Value
  pub repeated_unresolved_obligations : ℕ
  pub recent_corrections : ℕ
  pub recent_interrupts : ℕ
  pub recent_dereference_failure : ℕ
  pub recent_obligation_repeats : ℕ
  pub thresholds : Thresholds

-- The license of the source is one sentence for each rule, so the rule stands for both.
pub record Decision : Type 0 where
  pub regime : Regime
  pub rule : RegimeRule

abbrev pub decided : Regime → RegimeRule → Decision
decided g r = record { regime = g; rule = r }

-- `float64(in.RepairChars) >= 5*in.Baseline.Num`, for a known baseline.
unfoldable pub five_baselines : Floats → Value → ℕ → Bool
five_baselines fl unknown chars = false
five_baselines fl (known b) chars = fl.le (times (literal 5 1) b) (of_int chars)

unfoldable pub thrashing : Floats → RegimeInput → Option Decision
unfolding five_baselines at_least at_most
thrashing fl i =
    if leb i.thresholds.thrash_repair_depth i.repair_depth
    then some (decided thrash thrash_repair_depth)
    else if five_baselines fl i.baseline i.repair_chars
    then some (decided thrash thrash_recovery_chars)
    else if leb i.thresholds.repeated_obligations_warn i.repeated_unresolved_obligations
        && at_least fl i.serialization_inflation i.thresholds.serialization_warn
        && at_most fl i.forward_share thrash_forward_share
    then some (decided thrash thrash_obligation_inflation)
    else none

unfoldable pub drifting : Floats → RegimeInput → Option Decision
unfolding at_least
drifting fl i =
    if leb drift_event_count i.recent_dereference_failure
    then some (decided drift drift_dereference)
    else if leb drift_event_count (i.recent_corrections + i.recent_interrupts)
    then some (decided drift drift_control_actions)
    else if at_least fl i.serialization_inflation i.thresholds.serialization_warn
        && ltb 0 i.recent_obligation_repeats
    then some (decided drift drift_serialization_obligation)
    else none

abbrev or_else : Option Decision → Decision → Decision
or_else none d = d
or_else (some e) d = e

unfoldable pub decide : Floats → RegimeInput → Decision
unfolding thrashing drifting
decide fl i =
    if i.is_reset
    then decided reset RegimeRule.reset
    else if i.repair_open
    then or_else (thrashing fl i) (decided recovery recovery_open)
    else or_else (drifting fl i) (decided flow RegimeRule.flow)
