-- ===== src/Classify/Structure.antt =====
-- internal/classify/structure.go: the structural evidence over one sentence, and the repeat key.
use Prim.Native.Char.{code, len_utf8}
use Prim.Native.String.{len, slice}
use text.Mathlib.Text.{starts_with}
use flow_indicator.Base.{
  ℕ, suc, ◌+◌, String, Bool, true, false, not, ◌&&◌, ◌||◌, Option, none, some, List, [], ◌∷◌, ◌++◌,
  ltb, leb, ◌==◌, if◌then◌else◌, contains, is_some,
}
use flow_indicator.Floats.{Float64, Floats, literal, quotient}
use flow_indicator.Stream.{Unicode, Line, lines, tokens, trim_func, join}
use flow_indicator.Profile.{Ruleset, match, group, on_switch}
use flow_indicator.Classify.Words.{pre_subject_words, closed_class, negations}

-- What the rules take from Go's library: the Unicode tables, float64, the conversion of a float64
-- to an int, where one below 0 is read as 0, and the sentence that explains a release.
pub record Env : Type 0 where
  pub unicode : Unicode
  pub floats : Floats
  pub truncate : Float64 → ℕ
  pub release_evidence : String → Float64 → String

pub record Directive : Type 0 where
  pub subject_before_marker : Bool
  pub second_person : Bool
  pub contained : Bool
  pub code_density : Float64

abbrev on : Option Ruleset → String → Bool
on none name = true
on (some rs) name = on_switch rs name true

-- `describes`; `Describes` is the case `none`.
unfoldable pub describes : Option Ruleset → Directive → Bool
unfolding on_switch
describes rs d =
    if on rs "contained" && d.contained
    then true
    else if not (on rs "subject_before_marker")
    then false
    else d.subject_before_marker && not (on rs "second_person" && d.second_person)

abbrev pub rune_count : String → ℕ
rune_count String.[] = 0
rune_count (String.◌∷◌ c s) = suc (rune_count s)

abbrev covers : List (ℕ × ℕ) → ℕ → Bool
covers [] i = false
covers (m ∷ ms) i = let later = covers ms i in if leb m.0 i && ltb i m.1 then true else later

-- The runes of a text, whose first byte is at `i`, that start inside a region.
abbrev covered_from : List (ℕ × ℕ) → ℕ → String → ℕ
covered_from ms i String.[] = 0
covered_from ms i (String.◌∷◌ c s) =
    let later = covered_from ms (i + len_utf8 c) s in if covers ms i then suc later else later

abbrev all_matches : Ruleset → String → List String → List (ℕ × ℕ)
all_matches rs text [] = []
all_matches rs text (name ∷ names) =
    let later = all_matches rs text names in
    elim (group rs name) [ none ↦ later | some re ↦ re.find_all_string_index text ++ later ]

unfoldable pub code_density : Ruleset → String → Float64
unfolding group
code_density rs sentence =
    let total = rune_count sentence in
    if total == 0
    then literal 0 1
    else quotient
        (covered_from (all_matches rs sentence ("code_span" ∷ "path_token" ∷ [])) 0 sentence) total

abbrev has_subject : List String → Bool
has_subject [] = false
has_subject (t ∷ ts) =
    let later = has_subject ts in if contains t pre_subject_words then later else true

unfoldable pub describe_sentence : Env → Ruleset → String → ℕ → Bool → Directive
unfolding code_density match tokens
describe_sentence env rs sentence marker_at inside = record {
  contained = inside;
  second_person = match rs "second_person" sentence;
  code_density = code_density rs sentence;
  subject_before_marker =
      ltb 0 marker_at && has_subject (tokens env.unicode (slice sentence 0 marker_at));
}

abbrev pub trim_space : Env → String → String
trim_space env s = trim_func env.unicode.is_space s

-- The loop of `containedLines`: the regions in order, and the fence that is still open.
unfoldable pub regions_from : Env → Option ℕ → List Line → List (ℕ × ℕ) × Option ℕ
unfolding trim_func
regions_from env fence [] = ([], fence)
regions_from env fence (ln ∷ lns) =
    let trimmed = trim_func env.unicode.is_space ln.text in
    elim (starts_with trimmed "```") [
      | true ↦ elim fence [
        | none ↦ regions_from env (some ln.start) lns
        | some opened ↦
            let (later, left) = regions_from env none lns in ((opened, ln.end) ∷ later, left)
      ]
      | false ↦ elim (not (is_some fence) && starts_with trimmed ">") [
        | true ↦
            let (later, left) = regions_from env fence lns in ((ln.start, ln.end) ∷ later, left)
        | false ↦ regions_from env fence lns
      ]
    ]

unfoldable pub contained_lines : Env → String → ℕ → Bool
unfolding regions_from lines
contained_lines env text offset =
    let (regions, fence) = regions_from env none (lines text) in
    elim fence [
      | none ↦ covers regions offset
      | some opened ↦ covers (regions ++ (opened, len text) ∷ []) offset
    ]

-- The order of texts by their bytes, which for UTF-8 is that of their characters.
abbrev pub text_leb : String → String → Bool
text_leb String.[] t = true
text_leb (String.◌∷◌ c s) String.[] = false
text_leb (String.◌∷◌ c s) (String.◌∷◌ d t) =
    let rest = text_leb s t in
    if ltb (code c) (code d) then true else if code c == code d then rest else false

abbrev pub insert_text : String → List String → List String
insert_text t [] = t ∷ []
insert_text t (u ∷ us) =
    let later = insert_text t us in if text_leb t u then t ∷ u ∷ us else u ∷ later

-- sort.Strings.
unfoldable pub sort_texts : List String → List String
sort_texts [] = []
sort_texts (t ∷ ts) = insert_text t (sort_texts ts)

-- The loop of `ContentKey`: `seen` of the source holds what is in `out`.
unfoldable pub content_tokens : List String → List String → List String
content_tokens out [] = out
content_tokens out (t ∷ ts) =
    content_tokens
      (if contains t negations || ltb (len t) 2 || contains t closed_class || contains t out
        then out
        else out ++ t ∷ [])
      ts

unfoldable pub has_negation : List String → Bool
has_negation [] = false
has_negation (t ∷ ts) = let later = has_negation ts in if contains t negations then true else later

-- `negationToken`, the zero byte and "not".
abbrev pub negation_token : String
negation_token = "\0not"

unfoldable pub content_key : Env → String → String
unfolding tokens content_tokens has_negation sort_texts join
content_key env s =
    let ts = tokens env.unicode s in
    elim (content_tokens [] ts) [
      | [] ↦ ""
      | t ∷ out ↦
          let sorted = sort_texts (t ∷ out) in
          join " " (if has_negation ts then negation_token ∷ sorted else sorted)
    ]
