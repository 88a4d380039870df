-- ===== src/State/Regime/Rules.antt =====
-- What the regime rules guarantee of every decision; internal/state/regime.go.
use flow_indicator.Base.{ℕ, ◌+◌, ◌≤◌, ◌<◌, ◌≡◌, true, false, arith}
use flow_indicator.Floats.{Floats}
use flow_indicator.Metrics.{at_least, at_most}
use flow_indicator.Metrics.Snapshot.{
  Regime, RegimeRule, flow, drift, recovery, thrash, reset, recovery_open, thrash_repair_depth,
  thrash_recovery_chars, thrash_obligation_inflation, drift_dereference, drift_control_actions,
  drift_serialization_obligation,
}
use flow_indicator.State.Regime.{RegimeInput, decide, five_baselines, thrash_forward_share}

-- What the rule that a decision names has compared.
abbrev pub Compared : Floats → RegimeInput → RegimeRule → Type 0
Compared fl i RegimeRule.unknown = ⊥
Compared fl i RegimeRule.flow = (i.is_reset ≡ false) × (i.repair_open ≡ false)
Compared fl i RegimeRule.reset = i.is_reset ≡ true
Compared fl i recovery_open = (i.is_reset ≡ false) × (i.repair_open ≡ true)
Compared fl i thrash_repair_depth =
    (i.is_reset ≡ false)
    × (i.repair_open ≡ true)
    × (i.thresholds.thrash_repair_depth ≤ i.repair_depth)
Compared fl i thrash_recovery_chars =
    (i.is_reset ≡ false)
    × (i.repair_open ≡ true)
    × (five_baselines fl i.baseline i.repair_chars ≡ true)
Compared fl i thrash_obligation_inflation =
    (i.is_reset ≡ false)
    × (i.repair_open ≡ true)
    × (i.thresholds.repeated_obligations_warn ≤ i.repeated_unresolved_obligations)
    × (at_least fl i.serialization_inflation i.thresholds.serialization_warn ≡ true)
    × (at_most fl i.forward_share thrash_forward_share ≡ true)
Compared fl i drift_dereference =
    (i.is_reset ≡ false) × (i.repair_open ≡ false) × (2 ≤ i.recent_dereference_failure)
Compared fl i drift_control_actions =
    (i.is_reset ≡ false)
    × (i.repair_open ≡ false)
    × (2 ≤ i.recent_corrections + i.recent_interrupts)
Compared fl i drift_serialization_obligation =
    (i.is_reset ≡ false)
    × (i.repair_open ≡ false)
    × (at_least fl i.serialization_inflation i.thresholds.serialization_warn ≡ true)
    × (0 < i.recent_obligation_repeats)

-- The regime that a rule belongs to.
abbrev pub regime_of : RegimeRule → Regime
regime_of RegimeRule.unknown = flow
regime_of RegimeRule.flow = flow
regime_of RegimeRule.reset = reset
regime_of recovery_open = recovery
regime_of thrash_repair_depth = thrash
regime_of thrash_recovery_chars = thrash
regime_of thrash_obligation_inflation = thrash
regime_of drift_dereference = drift
regime_of drift_control_actions = drift
regime_of drift_serialization_obligation = drift

-- The rule that `Decide` names had its comparisons met by the input, and the regime is the one
-- that this rule stands for.
pub decide-Compared :
    (fl : Floats) (i : RegimeInput)
    → Compared fl i (decide fl i).rule × ((decide fl i).regime ≡ regime_of (decide fl i).rule)
unfolding decide five_baselines
decide-Compared fl i = ground arith

-- The order in which the rules are tried.
abbrev pub precedence : RegimeRule → ℕ
precedence RegimeRule.reset = 0
precedence thrash_repair_depth = 1
precedence thrash_recovery_chars = 2
precedence thrash_obligation_inflation = 3
precedence recovery_open = 4
precedence drift_dereference = 5
precedence drift_control_actions = 6
precedence drift_serialization_obligation = 7
precedence RegimeRule.flow = 8
precedence RegimeRule.unknown = 9

-- No rule whose comparisons the input meets comes before the one that `Decide` names, in the
-- fixed order of the rules.
pub decide_first :
    (fl : Floats) (i : RegimeInput) (r : RegimeRule)
    → Compared fl i r
    → precedence (decide fl i).rule ≤ precedence r
unfolding decide five_baselines
decide_first fl i RegimeRule.unknown c = absurd c
decide_first fl i _ c = ground arith
