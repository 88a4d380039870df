-- ===== src/Classify/Heuristic/Segments.antt =====
-- internal/classify/heuristic.go: the labelled segments of an operator's text.
use Prim.Native.String.{len, slice}
use flow_indicator.Base.{
  ℕ, String, Bool, false, not, ◌&&◌, List, [], ◌∷◌, same, ltb, leb, if◌then◌else◌, contains,
}
use flow_indicator.Stream.{normalize, add_member}
use flow_indicator.Profile.{Ruleset, match}
use flow_indicator.Classify.{
  SegmentLabel, Segment, forward_work, new_task, new_evidence, correction, scope_constraint,
  negative_constraint, positive_constraint, stop_condition, meta_process, handoff,
  referent_disambiguation, temporal_disambiguation, restart_reconstruction, handoff_after_failure,
  restated_prior_state, other_label,
}
use flow_indicator.Classify.Sentences.{Span, sentences}
use flow_indicator.Classify.Structure.{Env, rune_count, trim_space}

-- `minObligationChars`.
abbrev pub min_obligation_chars : ℕ
min_obligation_chars = 8

abbrev add_prior : Env → String → List Span → List String → List String
add_prior env t [] set = set
add_prior env t (sp ∷ spans) set =
    let norm = normalize env.unicode (slice t sp.start sp.end) in
    add_prior env t spans (if leb min_obligation_chars (len norm) then add_member set norm else set)

-- `priorLineSet`, after the texts that gave `set`.
unfoldable pub prior_line_set : Env → List String → List String → List String
unfolding sentences normalize add_member
prior_line_set env set [] = set
prior_line_set env set (t ∷ prior) = prior_line_set env (add_prior env t (sentences t) set) prior

unfoldable pub is_restatement : Env → String → List String → Bool
unfolding normalize
is_restatement env s prior_lines =
    let norm = normalize env.unicode s in
    not (ltb (len norm) min_obligation_chars) && contains norm prior_lines

-- The cases of a `switch` on matches, in order.
abbrev first_label : Ruleset → String → List (String × SegmentLabel) → SegmentLabel
first_label rs s [] = other_label
first_label rs s (probe ∷ probes) =
    let later = first_label rs s probes in if match rs probe.0 s then probe.1 else later

unfoldable pub label_of : Env → Ruleset → String → List String → Bool → SegmentLabel
unfolding match is_restatement
label_of env rs s prior_lines repair_open =
    if match rs "reset" s
    then if repair_open then handoff_after_failure else handoff
    else if match rs "correction_tier1" s
    then correction
    else if is_restatement env s prior_lines
    then restated_prior_state
    else first_label rs s (
        ("stop", stop_condition)
        ∷ ("scope", scope_constraint)
        ∷ ("negative", negative_constraint)
        ∷ ("positive", positive_constraint)
        ∷ ("meta", meta_process)
        ∷ ("new_task_line", new_task)
        ∷ ("referent", referent_disambiguation)
        ∷ ("reconstruction", restart_reconstruction)
        ∷ ("temporal", temporal_disambiguation)
        ∷ ("evidence", new_evidence)
        ∷ ("forward", forward_work)
        ∷ [])

abbrev segments_of : Env → Ruleset → String → List String → Bool → List Span → List Segment
segments_of env rs text prior_lines repair_open [] = []
segments_of env rs text prior_lines repair_open (sp ∷ spans) =
    let later = segments_of env rs text prior_lines repair_open spans in
    let raw = slice text sp.start sp.end in
    let s = trim_space env raw in
    if same s ""
    then later
    else record {
      label = label_of env rs s prior_lines repair_open;
      start = sp.start;
      end = sp.end;
      chars = rune_count raw;
    }
      ∷ later

-- `segment`.
unfoldable pub segment : Env → Ruleset → String → List String → Bool → List Segment
unfolding sentences label_of
segment env rs text prior_lines repair_open =
    segments_of env rs text prior_lines repair_open (sentences text)

unfoldable pub first_sentence_matches : Env → Ruleset → String → String → Bool
unfolding sentences match
first_sentence_matches env rs name text = elim (sentences text) [
  | [] ↦ false
  | sp ∷ spans ↦ match rs name (trim_space env (slice text sp.start sp.end))
]
