-- ===== src/Metrics/Assessments.antt =====
-- internal/metrics/pollution.go: how the agent's response to a correction is assessed.
use flow_indicator.Base.{ℕ, Bool, true, false, not, Option, none, some, ltb, ◌==◌, if◌then◌else◌}

pub data Pollution : Type 0 where
  unset clean polluted failed unknown : Pollution

-- Why an assessment came out as it did; the source spells each as a sentence.
pub data Premise : Type 0 where
  no_target_named no_write_observed nothing_established : Premise
  established_unrepaired expanded drew_no_correction no_outcome_fits : Premise

pub record Cycle : Type 0 where
  pub target_repaired : Option Bool
  pub expansions : ℕ
  pub immediate_correction : Bool
  pub writes : ℕ
  pub named : Bool

abbrev pub Assessment : Type 0
Assessment = record { status : Pollution; premise : Premise }

abbrev pub assess : Pollution → Premise → Assessment
assess s p = record { status = s; premise = p }

unfoldable pub assess_repaired : Bool → ℕ → Bool → Assessment
assess_repaired false expansions again = assess failed established_unrepaired
assess_repaired true expansions again =
    if ltb 0 expansions
    then assess polluted expanded
    else if not again
    then assess clean drew_no_correction
    else assess unknown no_outcome_fits

unfoldable pub assess_unverified : ℕ → Bool → Assessment
assess_unverified writes named =
    if not named
    then assess unknown no_target_named
    else if writes == 0
    then assess unknown no_write_observed
    else assess unknown nothing_established

unfoldable pub pollution_assessment : Cycle → Assessment
unfolding assess_repaired assess_unverified
pollution_assessment c = elim c.target_repaired [
  | none ↦ assess_unverified c.writes c.named
  | some repaired ↦ assess_repaired repaired c.expansions c.immediate_correction
]
