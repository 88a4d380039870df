-- ===== src/Classify/Heuristic/Obligations.antt =====
-- internal/classify/heuristic.go: the requirements that an operator's text states, and near repeats.
use Prim.Native.String.{len, slice}
use flow_indicator.Base.{
  ℕ, String, Bool, true, false, not, ◌&&◌, ◌||◌, Option, none, some, List, [], ◌∷◌, same, ltb,
  if◌then◌else◌,
}
use flow_indicator.Floats.{literal}
use flow_indicator.Stream.{normalize, token_set, jaccard}
use flow_indicator.Profile.{Ruleset, match, find_index, param}
use flow_indicator.Classify.{ObligationCandidate, ObligationRef, NearRepeat}
use flow_indicator.Classify.Sentences.{Span, sentences}
use flow_indicator.Classify.Structure.{
  Env, Directive, describes, describe_sentence, contained_lines, content_key, trim_space,
}
use flow_indicator.Classify.Heuristic.Segments.{min_obligation_chars}

-- A candidate with the fields that only the classifier and the calibration read.
pub record Stated : Type 0 where
  pub candidate : ObligationCandidate
  pub directive : Directive
  pub start : ℕ
  pub end : ℕ

-- The kind found so far, and the earliest marker: `kind == ""` and `markerAt < 0` are `none`.
abbrev Found : Type 0
Found = Option String × Option ℕ

abbrev earliest : Option ℕ → ℕ → Option ℕ
earliest none m = some m
earliest (some at) m = if ltb m at then some m else some at

abbrev probe_kinds : Ruleset → String → Found → List String → Found
probe_kinds rs s found [] = found
probe_kinds rs s found (name ∷ names) =
    probe_kinds rs s
      (elim (find_index rs name s) [
        | none ↦ found
        | some m ↦ (elim found.0 [ none ↦ some name | some kind ↦ some kind ], earliest found.1 m)
      ])
      names

-- `obligationKind`: each kind of obligation is named as its group of markers is.
unfoldable pub obligation_kind : Ruleset → String → Option String × ℕ
unfolding find_index
obligation_kind rs s =
    let (kind, at) =
      probe_kinds rs s (none, none) ("stop" ∷ "scope" ∷ "negative" ∷ "positive" ∷ []) in
    (kind, elim at [ none ↦ 0 | some m ↦ m ])

-- What one sentence states: nothing, or a candidate with whether it is kept.
unfoldable pub stated_in : Env → Ruleset → String → Span → Option (Bool × Stated)
unfolding normalize param match obligation_kind describe_sentence describes content_key
    contained_lines
stated_in env rs text sp =
    let raw = trim_space env (slice text sp.start sp.end) in
    let norm = normalize env.unicode raw in
    let least = env.truncate (param rs "min_obligation_chars" (literal min_obligation_chars 1)) in
    if ltb (len norm) least || match rs "release" raw
    then none
    else elim (obligation_kind rs raw).0 [
      | none ↦ none
      | some kind ↦
          let d =
            describe_sentence env rs raw (obligation_kind rs raw).1
              (contained_lines env text sp.start) in
          some (
            not (describes (some rs) d),
            record {
              candidate = record {
                key = norm;
                kind = kind;
                text = raw;
                repeat_key = content_key env raw;
              };
              directive = d;
              start = sp.start;
              end = sp.end;
            },
          )
    ]

abbrev pub Extracted : Type 0
Extracted = record { kept : List Stated; rejected : List Stated }

abbrev add_stated : Option (Bool × Stated) → Extracted → Extracted
add_stated none later = later
add_stated (some (true, c)) later = record later { kept = c ∷ later.kept }
add_stated (some (false, c)) later = record later { rejected = c ∷ later.rejected }

abbrev extract_from : Env → Ruleset → String → List Span → Extracted
extract_from env rs text [] = record { kept = []; rejected = [] }
extract_from env rs text (sp ∷ spans) =
    add_stated (stated_in env rs text sp) (extract_from env rs text spans)

unfoldable pub extract_obligations : Env → Ruleset → String → Extracted
unfolding sentences stated_in
extract_obligations env rs text = extract_from env rs text (sentences text)

abbrev pub candidates : List Stated → List ObligationCandidate
candidates [] = []
candidates (c ∷ cs) = c.candidate ∷ candidates cs

unfoldable pub repeat_match : ObligationCandidate → ObligationRef → Bool
repeat_match c a =
    same a.key c.key || (not (same c.repeat_key "") && same c.repeat_key a.repeat_key)

abbrev repeats_any : ObligationCandidate → List ObligationRef → Bool
repeats_any c [] = false
repeats_any c (a ∷ refs) =
    let later = repeats_any c refs in if repeat_match c a then true else later

unfoldable pub repeats_unresolved_obligation : List ObligationCandidate → List ObligationRef → Bool
unfolding repeat_match
repeats_unresolved_obligation [] refs = false
repeats_unresolved_obligation (c ∷ cs) refs =
    let later = repeats_unresolved_obligation cs refs in if repeats_any c refs then true else later

abbrev near_repeats_of :
    Env → Ruleset → ObligationCandidate → List ObligationRef → List NearRepeat → List NearRepeat
near_repeats_of env rs c [] rest = rest
near_repeats_of env rs c (a ∷ refs) rest =
    let later = near_repeats_of env rs c refs rest in
    let j = jaccard (token_set env.unicode c.key) (token_set env.unicode a.key) in
    if same a.key c.key || repeat_match c a
    then later
    else if env.floats.le (param rs "near_repeat_threshold" (literal 80 100)) j
    then record { key = c.key; prior_key = a.key; jaccard = j; text = c.text } ∷ later
    else later

unfoldable pub near_repeats :
    Env → Ruleset → List ObligationCandidate → List ObligationRef → List NearRepeat
unfolding repeat_match param jaccard token_set
near_repeats env rs [] refs = []
near_repeats env rs (c ∷ cs) refs = near_repeats_of env rs c refs (near_repeats env rs cs refs)
