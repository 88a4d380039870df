-- ===== src/Classify/Heuristic/Releases.antt =====
-- internal/classify/heuristic.go: the requirements that an operator's text withdraws.
pub mod Once
use text.Mathlib.Text.{starts_with}
use Prim.Native.String.{len, slice}
use flow_indicator.Base.{
  ℕ, ◌+◌, String, Bool, true, false, not, ◌&&◌, ◌||◌, Option, none, some, List, [], ◌∷◌, ◌++◌, same,
  ltb, ◌==◌, if◌then◌else◌, contains, length,
}
use flow_indicator.Floats.{Float64, literal, quotient}
use flow_indicator.Stream.{token_set, count_shared, append_text, map_chars}
use flow_indicator.Profile.{Ruleset, find, param}
use flow_indicator.Classify.{ObligationRef, ObligationResolution, released}
use flow_indicator.Classify.Sentences.{Span, sentences}
use flow_indicator.Classify.Structure.{Env, trim_space}

-- `tokenCoverage`.
unfoldable pub token_coverage : List String → List String → Float64 × ℕ
unfolding count_shared
token_coverage have want =
    if length want == 0
    then (literal 0 1, 0)
    else let shared = count_shared want have in (quotient shared (length want), shared)

-- strings.Replace of the first occurrence.
abbrev pub replace_first : String → String → String → String
replace_first old new String.[] = if same old "" then new else ""
replace_first old new (String.◌∷◌ c s) =
    let rest = replace_first old new s in
    let text = String.◌∷◌ c s in
    if starts_with text old
    then append_text new (slice text (len old) (len text))
    else String.◌∷◌ c rest

-- The best candidate so far with its coverage, and whether another fits as well.
pub record Best : Type 0 where
  pub best : Option (ObligationRef × Float64)
  pub ambiguous : Bool

pub fits : Env → Ruleset → List String → ObligationRef → Bool
unfolding token_coverage param token_set
fits env rs have a =
    let (cover, shared) = token_coverage have (token_set env.unicode a.key) in
    not (
      ltb shared (env.truncate (param rs "release_shared_tokens" (literal 2 1)))
      || env.floats.lt cover (param rs "release_coverage" (literal 50 100)))

pub weigh : Env → List String → Best → ObligationRef → Best
unfolding token_coverage token_set
weigh env have b a =
    let cover = (token_coverage have (token_set env.unicode a.key)).0 in
    elim b.best [
      | none ↦ record { best = some (a, cover); ambiguous = false }
      | some held ↦
          if env.floats.lt held.1 cover
          then record { best = some (a, cover); ambiguous = false }
          else if env.floats.eq cover held.1
          then record b { ambiguous = true }
          else b
    ]

-- The body of the loop over the unresolved candidates.
pub consider : Env → Ruleset → List String → List String → Best → ObligationRef → Best
unfolding fits weigh
consider env rs have claimed b a =
    if contains a.key claimed then b else if fits env rs have a then weigh env have b a else b

pub best_of : Env → Ruleset → List String → List String → Best → List ObligationRef → Best
unfolding consider
best_of env rs have claimed b [] = b
best_of env rs have claimed b (a ∷ refs) =
    best_of env rs have claimed (consider env rs have claimed b a) refs

-- What one sentence releases, given the keys claimed before.
pub release_in :
    Env → Ruleset → String → List ObligationRef → List String → Span → Option ObligationResolution
unfolding find token_set best_of
release_in env rs text refs claimed sp =
    let raw = trim_space env (slice text sp.start sp.end) in
    let marker = find rs "release" raw in
    if same marker ""
    then none
    else let b =
        best_of env rs (token_set env.unicode (replace_first marker " " raw)) claimed
          (record { best = none; ambiguous = false }) refs in
      elim b.best [
        | none ↦ none
        | some held ↦
            if b.ambiguous
            then none
            else some (record {
              key = held.0.key;
              kind = released;
              evidence = env.release_evidence (map_chars env.unicode.to_lower marker) held.1;
            })
      ]

pub releases_from :
    Env
    → Ruleset
    → String
    → List ObligationRef
    → List String
    → List Span
    → List ObligationResolution
unfolding release_in
releases_from env rs text refs claimed [] = []
releases_from env rs text refs claimed (sp ∷ spans) =
    elim (release_in env rs text refs claimed sp) [
      | none ↦ releases_from env rs text refs claimed spans
      | some r ↦ r ∷ releases_from env rs text refs (r.key ∷ claimed) spans
    ]

unfoldable pub releases : Env → Ruleset → String → List ObligationRef → List ObligationResolution
unfolding sentences releases_from
releases env rs text refs = releases_from env rs text refs [] (sentences text)
