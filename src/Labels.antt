-- ===== src/Labels.antt =====
-- internal/labels/labels.go: the judgements a person made, and which of them are accepted.
--
-- The four families and their vocabularies are tables of texts. Offsets are natural numbers.
pub mod Align
pub mod Score
use flow_indicator.Base.{
  ℕ, String, Bool, true, false, not, ◌&&◌, Option, none, some, List, [], ◌∷◌, same, leb,
  if◌then◌else◌, lookup, contains,
}
use flow_indicator.Stream.{Unicode, trim_func, add_member}
use flow_indicator.Classify.Structure.{sort_texts}

pub record Label : Type 0 where
  pub session : String
  pub record_id : String
  pub family : String
  pub start : ℕ
  pub end : ℕ
  pub label : String
  pub kind : String
  pub labeler : String
  pub text : String
  pub note : String

abbrev pub unlabelable : String
unlabelable = "unlabelable"

-- `positives`.
abbrev pub positives : List (String × List String)
positives =
    ("obligation", "directive" ∷ [])
    ∷ ("obligation_pair", "repeat" ∷ "supersedes" ∷ "releases" ∷ [])
    ∷ ("recovery", "opens" ∷ "deepens" ∷ [])
    ∷ ("pollution", "clean" ∷ "polluted" ∷ "failed" ∷ [])
    ∷ []

-- `vocabulary`.
abbrev pub vocabulary : List (String × List String)
vocabulary =
    ("obligation", "directive" ∷ "description" ∷ "task" ∷ unlabelable ∷ [])
    ∷ ("obligation_pair", "repeat" ∷ "supersedes" ∷ "releases" ∷ "unrelated" ∷ unlabelable ∷ [])
    ∷ ("recovery", "opens" ∷ "deepens" ∷ "unrelated" ∷ unlabelable ∷ [])
    ∷ ("pollution", "clean" ∷ "polluted" ∷ "failed" ∷ "unknown" ∷ unlabelable ∷ [])
    ∷ []

-- `positives[family][label]`, where a missing key reads as false.
unfoldable pub in_table : List (String × List String) → String → String → Bool
in_table table family value = elim (lookup family table) [
  | none ↦ false
  | some values ↦ contains value values
]

unfoldable pub is_positive : Label → Bool
unfolding in_table
is_positive l = in_table positives l.family l.label

unfoldable pub is_whole_record : Label → Bool
is_whole_record l = leb l.end l.start

pub data Invalid : Type 0 where
  no_record unknown_family no_value not_in_vocabulary no_reason no_labeler : Invalid

-- `validate`: `none` is the nil error.
unfoldable pub validate : Unicode → Label → Option Invalid
unfolding trim_func
validate u l = if same l.record_id "" then some no_record else elim (lookup l.family vocabulary) [
  | none ↦ some unknown_family
  | some known ↦
      if same l.label ""
      then some no_value
      else if not (contains l.label known)
      then some not_in_vocabulary
      else if same l.label unlabelable && same (trim_func u.is_space l.note) ""
      then some no_reason
      else if same l.labeler ""
      then some no_labeler
      else none
]

-- The part of `parse` that follows the decoding of each line: the first invalid label refuses all.
unfoldable pub validate_all : Unicode → List Label → Option Invalid
unfolding validate
validate_all u [] = none
validate_all u (l ∷ ls) =
    let later = validate_all u ls in elim (validate u l) [ none ↦ later | some e ↦ some e ]

-- `Pass`.
unfoldable pub pass : List Label → String → String → List Label
pass [] family labeler = []
pass (l ∷ ls) family labeler =
    let later = pass ls family labeler in
    if same l.family family && same l.labeler labeler then l ∷ later else later

abbrev labelers_from : String → List Label → List String → List String
labelers_from family [] seen = seen
labelers_from family (l ∷ ls) seen =
    labelers_from family ls (if same l.family family then add_member seen l.labeler else seen)

unfoldable pub labelers : List Label → String → List String
unfolding sort_texts add_member
labelers ls family = sort_texts (labelers_from family ls [])

abbrev families_from : List Label → List String → List String
families_from [] seen = seen
families_from (l ∷ ls) seen = families_from ls (add_member seen l.family)

unfoldable pub families : List Label → List String
unfolding sort_texts add_member
families ls = sort_texts (families_from ls [])

abbrev sessions_from : List Label → List String → List String
sessions_from [] seen = seen
sessions_from (l ∷ ls) seen =
    sessions_from ls (if same l.session "" then seen else add_member seen l.session)

unfoldable pub sessions : List Label → List String
unfolding sort_texts add_member
sessions ls = sort_texts (sessions_from ls [])
