-- ===== src/Event.antt =====
-- internal/event: the envelope of every emitted fact, and the builder that stamps it.
use flow_indicator.Base.{ℕ, ◌+◌, String, Bool, Option, none, some, if◌then◌else◌}
use mathlib.Core.Logic.{ite}
use flow_indicator.Stream.{SourceRef}

pub data EvidenceClass : Type 0 where
  observed classified derived : EvidenceClass

pub data Kind : Type 0 where
  record_observed observation_stopped operator_interrupt : Kind
  segments_classified correction_candidate stop_candidate reset_candidate : Kind
  pointer_candidate obligation_candidate near_repeat_candidate : Kind
  expansion_candidate classifier_failed : Kind
  obligation_introduced obligation_repeated obligation_satisfied obligation_violated : Kind
  obligation_released obligation_superseded obligation_revived : Kind
  repair_opened repair_deepened repair_provisional_close repair_durable_close : Kind
  repair_recurred repair_reset repair_status : Kind
  pointer_resolved epoch_advanced regime_changed trend_emerged : Kind
  state_at_observation_stop metrics_computed : Kind

-- The kinds' texts are pairwise different.
pub Kind-discrete : Discrete Kind
Kind-discrete = hlevel

abbrev pub schema_version : ℕ
schema_version = 1

-- The arguments of `ID`. The source keeps a prefix of the SHA-256 digest of their text; the model
-- keeps what is hashed.
pub record EventId : Type 0 where
  pub stream_id : String
  pub seq : ℕ
  pub kind : Kind
  pub ordinal : ℕ
  pub version : ℕ

pub record Event {ℓ} (P : Type ℓ) : Type ℓ where
  pub version : ℕ
  pub id : EventId
  pub stream_id : String
  pub seq : ℕ
  pub epoch : ℕ
  pub kind : Kind
  pub source : SourceRef
  pub evidence_class : EvidenceClass
  pub payload : P

-- `ordinals` is the map from a kind to how often it was emitted: a missing key is 0.
pub record Builder : Type 0 where
  pub stream_id : String
  pub seq : ℕ
  pub epoch : ℕ
  pub source : SourceRef
  pub ordinals : Kind → ℕ

-- `NewBuilder`.
unfoldable pub new_builder : String → ℕ → ℕ → SourceRef → Builder
new_builder stream_id seq epoch source = record {
  stream_id = stream_id;
  seq = seq;
  epoch = epoch;
  source = source;
  ordinals = λ _. 0;
}

-- `SetEpoch`.
unfoldable pub set_epoch : ℕ → Builder → Builder
set_epoch epoch b = record b { epoch = epoch }

abbrev pub bump : Kind → (Kind → ℕ) → Kind → ℕ
bump k f j = ite (Kind-discrete j k) (f j + 1) (f j)

module _ {ℓ} {P : Type ℓ} where
  -- The builder after `Emit`, and the event, for a payload that json.Marshal takes.
  unfoldable pub stamp : Kind → EvidenceClass → P → Builder → Builder × Event P
  stamp kind evidence_class payload b = (
    record b { ordinals = bump kind b.ordinals },
    record {
      version = schema_version;
      id = record {
        stream_id = b.stream_id;
        seq = b.seq;
        kind = kind;
        ordinal = b.ordinals kind;
        version = schema_version;
      };
      stream_id = b.stream_id;
      seq = b.seq;
      epoch = b.epoch;
      kind = kind;
      source = b.source;
      evidence_class = evidence_class;
      payload = payload;
    },
  )

  -- `Emit`, where `marshals` tells whether json.Marshal takes a payload. `none` is the panic for one
  -- that it refuses.
  unfoldable pub emit : (P → Bool) → Kind → EvidenceClass → P → Builder → Option (Builder × Event P)
  unfolding stamp
  emit marshals kind evidence_class payload b =
      if marshals payload then some (stamp kind evidence_class payload b) else none
