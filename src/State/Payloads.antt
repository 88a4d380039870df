-- ===== src/State/Payloads.antt =====
-- internal/state/payloads.go: what an event says.
--
-- The licenses and reasons of the source are fixed sentences, one for each place that emits, and
-- are kept as constructors. A payload holds the obligation or episode as it was when emitted.
use flow_indicator.Base.{ℕ, String, Bool, Option, List}
use flow_indicator.Metrics.{Buckets, Pollution, Premise}
use flow_indicator.Metrics.Snapshot.{Snapshot, Regime, RegimeRule, RepairStatus}
use flow_indicator.Stream.{SpeakerClass}
use flow_indicator.Observe.{Observation}
use flow_indicator.Event.{Kind, EvidenceClass}
use flow_indicator.Classify.{
  Provenance, Segment, Correction, Pointer, ObligationCandidate, NearRepeat, RepairSignal,
  ResolutionKind,
}
use flow_indicator.State.Obligations.{Obligation, ObligationStatus}
use flow_indicator.State.Trend.{Trend}
use flow_indicator.State.Repair.{Repair}

pub data License : Type 0 where
  opened structural deepened recurred provisional durable reset : License

pub data Reason : Type 0 where
  source_ended window_ran_out unrelated_correction no_target_equivalence epoch_ended : Reason

pub data Outcome : Type 0 where
  success failure unknown : Outcome

pub data Evidence : Type 0 where
  first_response_corrected first_response_accepted later_correction_named : Evidence
  window_closed epoch_closed source_closed : Evidence

pub record PollutionReport : Type 0 where
  pub repair_id : ℕ
  pub agent_turn : ℕ
  pub cycle_records : ℕ
  pub claimed_repaired : Bool
  pub target_repaired : Option Bool
  pub expansions : ℕ
  pub immediate_correction : Bool
  pub cycle_writes : ℕ
  pub cycle_interrupts : ℕ
  pub cycle_failed_actions : ℕ
  pub status : Pollution
  pub evidence : Premise

pub record ObservedPayload : Type 0 where
  pub turn_id : String
  pub speaker : String
  pub speaker_class : SpeakerClass
  pub timestamp : ℕ
  pub observation : Observation
  pub snippet : String

pub record Inventory : Type 0 where
  pub epoch : ℕ
  pub open_repair : ℕ
  pub pending_pointers : ℕ
  pub awaiting_durability : ℕ
  pub unresolved_candidates : ℕ

pub data Payload : Type 0 where
  observed_payload : ObservedPayload → Payload
  interrupt_payload : ℕ → Payload
  failure_payload : String → String → String → Payload
  segments_payload : Provenance → List Segment → Buckets → Payload
  correction_payload : Provenance → Correction → ℕ → Payload
  marker_payload : Provenance → String → Payload
  pointer_payload : Provenance → Pointer → Payload
  candidate_payload : Provenance → ObligationCandidate → Payload
  near_repeat_payload : Provenance → NearRepeat → Payload
  expansion_payload : Provenance → RepairSignal → Option ℕ → Payload
  obligation_payload : Obligation → Payload
  obligation_repeat_payload : Obligation → Bool → Payload
  obligation_resolved_payload : Obligation → ResolutionKind → Provenance → String → Payload
  obligation_revived_payload : Obligation → ObligationStatus → Payload
  repair_payload : Repair → License → Payload
  repair_status_payload : Repair → RepairStatus → Reason → Payload
  pollution_payload : PollutionReport → Payload
  pointer_outcome_payload : ℕ → String → Outcome → Evidence → Payload
  epoch_payload : ℕ → ℕ → ℕ → List ℕ → Payload
  regime_payload : Regime → Regime → RegimeRule → Payload
  metrics_payload : Snapshot → Payload
  trend_payload : Trend → Bool → ℕ → Payload
  observation_stopped_payload : String → ℕ → ℕ → Payload
  inventory_payload : Inventory → Payload

-- The arguments of one call of `Emit`.
pub record Draft : Type 0 where
  pub kind : Kind
  pub evidence_class : EvidenceClass
  pub payload : Payload

abbrev pub draft : Kind → EvidenceClass → Payload → Draft
draft k c p = record { kind = k; evidence_class = c; payload = p }
