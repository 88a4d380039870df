-- ===== src/Classify.antt =====
-- internal/classify/classifier.go and capability.go: what a classifier returns for one record.
pub mod Sentences
pub mod Words
pub mod Structure
pub mod Heuristic
pub mod Worker
pub mod OpenAi
pub mod Hybrid
pub mod Persisted
use flow_indicator.Base.{ℕ, ◌+◌, String, Bool, true, false, Option, List, [], ◌∷◌, if◌then◌else◌}
use flow_indicator.Floats.{Float64}
use flow_indicator.Metrics.Snapshot.{RepairStatus}
use flow_indicator.Stream.{Record}

pub data Bucket : Type 0 where
  forward control recovery restate other : Bucket

pub data SegmentLabel : Type 0 where
  forward_work new_task new_evidence : SegmentLabel
  correction scope_constraint negative_constraint positive_constraint : SegmentLabel
  stop_condition meta_process handoff : SegmentLabel
  referent_disambiguation temporal_disambiguation namespace_disambiguation : SegmentLabel
  restart_reconstruction handoff_after_failure : SegmentLabel
  restated_prior_state other_label : SegmentLabel

unfoldable pub bucket : SegmentLabel → Bucket
bucket forward_work = forward
bucket new_task = forward
bucket new_evidence = forward
bucket scope_constraint = control
bucket negative_constraint = control
bucket positive_constraint = control
bucket stop_condition = control
bucket meta_process = control
bucket handoff = control
bucket correction = recovery
bucket referent_disambiguation = recovery
bucket temporal_disambiguation = recovery
bucket namespace_disambiguation = recovery
bucket restart_reconstruction = recovery
bucket handoff_after_failure = recovery
bucket restated_prior_state = restate
bucket other_label = other

abbrev same_bucket : Bucket → Bucket → Bool
same_bucket forward forward = true
same_bucket control control = true
same_bucket recovery recovery = true
same_bucket restate restate = true
same_bucket other other = true
same_bucket _ _ = false

pub record Segment : Type 0 where
  pub label : SegmentLabel
  pub start : ℕ
  pub end : ℕ
  pub chars : ℕ

pub record Pointer : Type 0 where
  pub is_pointer : Bool
  pub pointer_type : String
  pub chars : ℕ
  pub text : String

pub record Correction : Type 0 where
  pub is_correction : Bool
  pub target_type : String
  pub target_key : String
  pub marker : String
  pub target_paths : List String
  pub structural : Bool

pub record ObligationCandidate : Type 0 where
  pub key : String
  pub kind : String
  pub text : String
  pub repeat_key : String

-- The resolution kinds; `unrecognized` is any other text.
pub data ResolutionKind : Type 0 where
  released superseded satisfied unrecognized : ResolutionKind

pub record ObligationResolution : Type 0 where
  pub key : String
  pub kind : ResolutionKind
  pub evidence : String

pub record NearRepeat : Type 0 where
  pub key : String
  pub prior_key : String
  pub jaccard : Float64
  pub text : String

pub record RepairSignal : Type 0 where
  pub claimed_repaired : Bool
  pub target_repaired : Option Bool
  pub new_scope : ℕ
  pub new_tasks : ℕ
  pub new_validation : ℕ
  pub new_constraints : ℕ

unfoldable pub expansions : RepairSignal → ℕ
expansions r = r.new_scope + r.new_tasks + r.new_validation + r.new_constraints

pub record Provenance : Type 0 where
  pub classifier : String
  pub version : String
  pub hash : String
  pub source_turn : ℕ
  pub confidence : Float64
  pub markers : String

pub record Result : Type 0 where
  pub segments : List Segment
  pub pointer : Pointer
  pub correction : Correction
  pub obligations : List ObligationCandidate
  pub rejected : List ObligationCandidate
  pub resolutions : List ObligationResolution
  pub near_repeats : List NearRepeat
  pub repair : RepairSignal
  pub reset : Bool
  pub stop : Bool
  pub acceptance : Bool
  pub continuation : Bool
  pub confidence : Float64
  pub provenance : Provenance

unfoldable pub chars_in_segments : List Segment → Bucket → ℕ
unfolding bucket
chars_in_segments [] b = 0
chars_in_segments (s ∷ segments) b =
    let rest = chars_in_segments segments b in
    if same_bucket (bucket s.label) b then s.chars + rest else rest

unfoldable pub chars_in : Result → Bucket → ℕ
unfolding chars_in_segments
chars_in r b = chars_in_segments r.segments b

pub data Capability : Type 0 where
  verified_repair obligation_release obligation_supersession obligation_satisfaction : Capability

abbrev same_capability : Capability → Capability → Bool
same_capability verified_repair verified_repair = true
same_capability obligation_release obligation_release = true
same_capability obligation_supersession obligation_supersession = true
same_capability obligation_satisfaction obligation_satisfaction = true
same_capability _ _ = false

-- `Can`.
unfoldable pub can : List Capability → Capability → Bool
can [] c = false
can (x ∷ caps) c = if same_capability x c then true else can caps c

pub record ObligationRef : Type 0 where
  pub id : ℕ
  pub key : String
  pub repeat_key : String
  pub kind : String
  pub text : String

pub record RepairRef : Type 0 where
  pub id : ℕ
  pub depth : ℕ
  pub status : RepairStatus
  pub target_key : String
  pub target_paths : List String
  pub trigger_seq : ℕ

-- `Prior` of the source is never filled by the projector, and is left out.
pub record Input : Type 0 where
  pub turn : Record
  pub prior_operator_text : List String
  pub unresolved_obligations : List ObligationRef
  pub active_repair : Option RepairRef

-- What `Classify` returned: a result, and the text of the error beside it, if any.
pub record Answer : Type 0 where
  pub result : Result
  pub error : Option String
