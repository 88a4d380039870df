-- ===== src/Classify/OpenAi.antt =====
-- internal/classify/openai.go: what a model's answer must be, and the result made of it.
--
-- The request and the decoding of its JSON are an argument: an answer, or the text of an error.
pub mod Tiling
use Prim.Native.String.{len, slice}
use text.Mathlib.Text.{is_char_boundary}
use flow_indicator.Base.{
  ℕ, suc, ◌+◌, String, Bool, true, false, not, ◌&&◌, ◌||◌, Option, none, some, List, [], ◌∷◌, ◌++◌,
  same, ltb, leb, ◌==◌, if◌then◌else◌, contains, is_some, ℤ, pos, is_negative, below, pos_part,
}
use flow_indicator.Floats.{Float64, literal}
use flow_indicator.Stream.{normalize, is_operator_turn, is_agent}
use flow_indicator.Profile.{Ruleset}
use flow_indicator.Classify.{
  SegmentLabel, Segment, other_label, Input, Result, Answer, ObligationRef, ObligationCandidate,
  ObligationResolution, ResolutionKind, unrecognized, Capability, verified_repair,
  obligation_release, obligation_supersession, obligation_satisfaction,
}
use flow_indicator.Classify.Structure.{Env, rune_count, trim_space}
use flow_indicator.Classify.Heuristic.{classify}

-- A label is the text of a known one, or any other text: `none`.
pub record ModelSegment : Type 0 where
  pub label : Option SegmentLabel
  pub start : ℤ
  pub end : ℤ

pub record ModelPointer : Type 0 where
  pub is_pointer : Bool
  pub pointer_type : String
  pub text : String

pub record ModelCorrection : Type 0 where
  pub is_correction : Bool
  pub target_type : String
  pub target_key : String

pub record ModelObligation : Type 0 where
  pub key : String
  pub kind : String
  pub text : String

pub record ModelRepair : Type 0 where
  pub target_repaired : Option Bool
  pub new_scope : ℤ
  pub new_tasks : ℤ
  pub new_validation : ℤ
  pub new_constraints : ℤ

-- `modelOutput`; `confidence_fits` says that the confidence is a number of [0, 1].
pub record ModelOutput : Type 0 where
  pub segments : List ModelSegment
  pub pointer : ModelPointer
  pub correction : ModelCorrection
  pub obligations : List ModelObligation
  pub resolutions : List ObligationResolution
  pub repair : ModelRepair
  pub confidence : Float64
  pub confidence_fits : Bool

pub data Rejected : Type 0 where
  confidence_outside segment_outside segment_before_previous segment_splits_character : Rejected
  unknown_label unknown_pointer_type pointer_text_without_pointer : Rejected
  unknown_target_type correction_text_without_correction negative_count : Rejected
  unknown_obligation_kind unnamed_obligation duplicate_obligation : Rejected
  unknown_resolution_kind unnamed_resolution not_outstanding no_evidence : Rejected
  duplicate_resolution : Rejected

-- The checks of a loop, and what follows it: an error ends both.
infixr 30 ◌then_check◌
abbrev pub ◌then_check◌ : Option Rejected → Option Rejected → Option Rejected
none then_check later = later
some e then_check later = some e

abbrev refuse_if : Bool → Rejected → Option Rejected
refuse_if b e = if b then some e else none

-- One round of the loop over the segments.
pub check_segment : String → ℕ → ModelSegment → Option Rejected
check_segment text prev_end s =
    if is_negative s.start || below (pos (len text)) s.end || below s.end s.start
    then some segment_outside
    else if below s.start (pos prev_end)
    then some segment_before_previous
    else if not (is_char_boundary text (pos_part s.start) && is_char_boundary text (pos_part s.end))
    then some segment_splits_character
    else if is_some s.label
    then none
    else some unknown_label

pub check_segments : String → ℕ → List ModelSegment → Option Rejected
unfolding check_segment
check_segments text prev_end [] = none
check_segments text prev_end (s ∷ segments) =
    check_segment text prev_end s then_check check_segments text (pos_part s.end) segments

abbrev pointer_types : List String
pointer_types =
    "node" ∷ "alias" ∷ "file" ∷ "path" ∷ "task" ∷ "temporal" ∷ "quote" ∷ "namespace" ∷ "relation"
    ∷ "operation" ∷ "unknown" ∷ []

-- `validPointerType`.
abbrev valid_pointer_type : String → Bool
valid_pointer_type t = contains t pointer_types

abbrev check_pointer : ModelPointer → Option Rejected
check_pointer p =
    refuse_if (not (valid_pointer_type p.pointer_type)) unknown_pointer_type
    then_check refuse_if
        (not p.is_pointer && (not (same p.text "") || not (same p.pointer_type "unknown")))
        pointer_text_without_pointer

abbrev check_correction : ModelCorrection → Option Rejected
check_correction c =
    refuse_if (c.is_correction && not (valid_pointer_type c.target_type)) unknown_target_type
    then_check refuse_if
        (not c.is_correction
          && (not (same c.target_key "")
              || (not (same c.target_type "") && not (same c.target_type "unknown"))))
        correction_text_without_correction

abbrev check_repair : ModelRepair → Option Rejected
check_repair r =
    refuse_if
      (is_negative r.new_scope
        || is_negative r.new_tasks
        || is_negative r.new_validation
        || is_negative r.new_constraints)
      negative_count

abbrev obligation_kinds : List String
obligation_kinds = "stop" ∷ "scope" ∷ "negative" ∷ "positive" ∷ []

abbrev obligation_name : Env → ModelObligation → String
obligation_name env ob = if same ob.key "" then normalize env.unicode ob.text else ob.key

pub check_obligations : Env → List String → List ModelObligation → Option Rejected
unfolding normalize
check_obligations env seen [] = none
check_obligations env seen (ob ∷ obligations) =
    refuse_if (not (contains ob.kind obligation_kinds)) unknown_obligation_kind
    then_check refuse_if (same (obligation_name env ob) "") unnamed_obligation
    then_check refuse_if (contains (obligation_name env ob) seen) duplicate_obligation
    then_check check_obligations env (obligation_name env ob ∷ seen) obligations

abbrev known_kind : ResolutionKind → Bool
known_kind unrecognized = false
known_kind _ = true

pub check_resolutions :
    Env → List String → List String → List ObligationResolution → Option Rejected
check_resolutions env outstanding seen [] = none
check_resolutions env outstanding seen (r ∷ resolutions) =
    refuse_if (not (known_kind r.kind)) unknown_resolution_kind
    then_check refuse_if (same r.key "") unnamed_resolution
    then_check refuse_if (not (contains r.key outstanding)) not_outstanding
    then_check refuse_if (same (trim_space env r.evidence) "") no_evidence
    then_check refuse_if (contains r.key seen) duplicate_resolution
    then_check check_resolutions env outstanding (r.key ∷ seen) resolutions

-- `validate`: `none` is the nil error.
unfoldable pub validate : Env → ModelOutput → String → List String → Option Rejected
unfolding check_segments check_obligations check_resolutions
validate env out text outstanding =
    refuse_if (not out.confidence_fits) confidence_outside
    then_check check_segments text 0 out.segments
    then_check check_pointer out.pointer
    then_check check_correction out.correction
    then_check check_repair out.repair
    then_check check_obligations env [] out.obligations
    then_check check_resolutions env outstanding [] out.resolutions

-- `add` of `tile`.
abbrev pub add : String → SegmentLabel → ℕ → ℕ → List Segment → List Segment
add text label start end later =
    if leb end start
    then later
    else record {
      label = label;
      start = start;
      end = end;
      chars = rune_count (slice text start end);
    }
      ∷ later

abbrev pub label_or : Option SegmentLabel → SegmentLabel
label_or none = other_label
label_or (some l) = l

pub tile_from : String → ℕ → List ModelSegment → List Segment
tile_from text at [] = add text other_label at (len text) []
tile_from text at (s ∷ segments) = add text other_label at (pos_part s.start) (
    add text (label_or s.label) (pos_part s.start) (pos_part s.end)
      (tile_from text (pos_part s.end) segments))

unfoldable pub tile : ModelOutput → String → List Segment
unfolding tile_from
tile out text = tile_from text 0 out.segments

-- `worthSending`.
unfoldable pub worth_sending : Input → Bool
unfolding is_operator_turn
worth_sending inp =
    if is_operator_turn inp.turn
    then true
    else if is_agent inp.turn.speaker_class
    then is_some inp.active_repair
    else false

-- `MaxTurnBytes`.
abbrev pub max_turn_bytes : ℕ
max_turn_bytes = 32768

abbrev pub capabilities : List Capability
capabilities =
    verified_repair ∷ obligation_release ∷ obligation_supersession ∷ obligation_satisfaction ∷ []

abbrev ref_keys : List ObligationRef → List String
ref_keys [] = []
ref_keys (a ∷ refs) = a.key ∷ ref_keys refs

abbrev obligations_of : Env → List ModelObligation → List ObligationCandidate
obligations_of env [] = []
obligations_of env (ob ∷ obligations) =
    record { key = obligation_name env ob; kind = ob.kind; text = ob.text; repeat_key = "" }
    ∷ obligations_of env obligations

abbrev or_else : List ObligationResolution → List ObligationResolution → List ObligationResolution
or_else [] markers = markers
or_else (r ∷ resolutions) markers = r ∷ resolutions

-- The result, where `hash` is what `Hash` gives.
unfoldable pub fold_output : Env → String → Input → Result → ModelOutput → Result
unfolding tile normalize
fold_output env hash inp base out = record base {
  segments = tile out inp.turn.text;
  pointer = record {
    is_pointer = out.pointer.is_pointer;
    pointer_type = out.pointer.pointer_type;
    chars = rune_count out.pointer.text;
    text = out.pointer.text;
  };
  correction = record {
    is_correction = out.correction.is_correction;
    target_type = out.correction.target_type;
    target_key = out.correction.target_key;
    marker = "";
    target_paths = [];
    structural = false;
  };
  obligations = obligations_of env out.obligations;
  resolutions = or_else out.resolutions base.resolutions;
  repair = record {
    claimed_repaired = base.repair.claimed_repaired;
    target_repaired = out.repair.target_repaired;
    new_scope = pos_part out.repair.new_scope;
    new_tasks = pos_part out.repair.new_tasks;
    new_validation = pos_part out.repair.new_validation;
    new_constraints = pos_part out.repair.new_constraints;
  };
  confidence = out.confidence;
  provenance = record {
    classifier = "openai-compatible";
    version = "4";
    hash = hash;
    source_turn = inp.turn.seq;
    confidence = out.confidence;
    markers = "heuristic/5";
  };
}

pub data Reply : Type 0 where
  decoded : ModelOutput → Reply
  request_failed : String → Reply

-- `Classify`, given what the request came to. The error texts of this code are `failed`.
unfoldable pub classify_with : Env → Ruleset → String → Reply → Input → Answer
unfolding classify worth_sending validate fold_output
classify_with env rs hash reply inp =
    let base = classify env rs inp in
    let kept : Option String → Answer = λ e. record { result = base; error = e } in
    if same inp.turn.text "" || not (worth_sending inp)
    then kept none
    else if ltb max_turn_bytes (len inp.turn.text)
    then kept (some "over the limit")
    else elim reply [
      | request_failed e ↦ kept (some e)
      | decoded out ↦ elim (validate env out inp.turn.text (ref_keys inp.unresolved_obligations)) [
        | some e ↦ kept (some "rejected")
        | none ↦ record { result = fold_output env hash inp base out; error = none }
      ]
    ]
