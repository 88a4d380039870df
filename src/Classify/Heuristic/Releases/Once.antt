-- ===== src/Classify/Heuristic/Releases/Once.antt =====
-- A text withdraws only unresolved requirements, each once; internal/classify/heuristic.go.
use flow_indicator.Base.{
  ◌≡◌, refl, inl, inr, String, true, false, none, some, List, [], ◌∷◌, same_iff, contains, All,
  Bool-cases, Option-cases, arith,
}
use Prim.Native.String.{slice}
use flow_indicator.Stream.{token_set}
use flow_indicator.Floats.{Float64}
use flow_indicator.Profile.{Ruleset, find}
use flow_indicator.Classify.{ObligationRef, ObligationResolution}
use flow_indicator.Classify.Sentences.{Span, sentences}
use flow_indicator.Classify.Structure.{Env, trim_space}
use flow_indicator.Classify.Heuristic.Releases.{
  Best, fits, weigh, consider, best_of, release_in, releases_from, releases, replace_first,
}

abbrev pub ref_keys : List ObligationRef → List String
ref_keys [] = []
ref_keys (a ∷ refs) = a.key ∷ ref_keys refs

abbrev pub released_keys : List ObligationResolution → List String
released_keys [] = []
released_keys (r ∷ rs) = r.key ∷ released_keys rs

abbrev pub Different : List String → Type 0
Different [] = Unit
Different (k ∷ ks) = (contains k ks ≡ false) × Different ks

-- A key that may still be released.
abbrev Open : List String → List String → String → Type 0
Open keys claimed k = (contains k claimed ≡ false) × (contains k keys ≡ true)

abbrev Opens : List String → List String → Best → Type 0
Opens keys claimed b =
    (held : ObligationRef × Float64) → b.best ≡ some held → Open keys claimed held.0.key

weigh-Opens :
    (env : Env) (have keys claimed : List String) (b : Best) (a : ObligationRef)
    → Opens keys claimed b
    → Open keys claimed a.key
    → Opens keys claimed (weigh env have b a)
unfolding weigh
weigh-Opens env have keys claimed b a old new held e = ground (arith, old held, new)

consider-Opens :
    (env : Env) (rs : Ruleset) (have keys claimed : List String) (b : Best) (a : ObligationRef)
    → Opens keys claimed b
    → contains a.key keys ≡ true
    → Opens keys claimed (consider env rs have claimed b a)
unfolding consider
consider-Opens env rs have keys claimed b a old known = elim (Bool-cases (contains a.key claimed)) [
  | inl taken ↦ rw taken old
  | inr free ↦ elim (Bool-cases (fits env rs have a)) [
    | inr poor ↦ rw (free, poor) old
    | inl good ↦ rw (free, good) (weigh-Opens env have keys claimed b a old (free, known))
  ]
]

best_of-Opens :
    (env : Env) (rs : Ruleset) (have keys claimed : List String) (b : Best)
    (refs : List ObligationRef)
    → Opens keys claimed b
    → All (λ a. contains a.key keys ≡ true) refs
    → Opens keys claimed (best_of env rs have claimed b refs)
unfolding best_of
best_of-Opens env rs have keys claimed b [] old known = old
best_of-Opens env rs have keys claimed b (a ∷ refs) old known =
    best_of-Opens env rs have keys claimed (consider env rs have claimed b a) refs
      (consider-Opens env rs have keys claimed b a old known.0) known.1

release_in-Open :
    (env : Env) (rs : Ruleset) (text : String) (refs : List ObligationRef)
    (keys claimed : List String) (sp : Span) (r : ObligationResolution)
    → All (λ a. contains a.key keys ≡ true) refs
    → release_in env rs text refs claimed sp ≡ some r
    → Open keys claimed r.key
unfolding release_in
release_in-Open env rs text refs keys claimed sp r known e =
    let raw = trim_space env (slice text sp.start sp.end) in
    let marker = find rs "release" raw in
    let b =
      best_of env rs (token_set env.unicode (replace_first marker " " raw)) claimed
        (record { best = none; ambiguous = false }) refs in
    let opens =
      best_of-Opens env rs (token_set env.unicode (replace_first marker " " raw)) keys claimed
        (record { best = none; ambiguous = false }) refs (λ held none_held. cc) known in
    elim (Option-cases b.best) [
      | inl nothing ↦ absurd (ground arith)
      | inr (held, found) ↦
          let (free, member) = opens held found in
          let same_key : held.0.key ≡ r.key = ground arith in rw (← same_key) (free, member)
    ]

different-from :
    (k : String) (claimed : List String) (rs : List ObligationResolution)
    → All (λ r. contains r.key (k ∷ claimed) ≡ false) rs
    → (contains k (released_keys rs) ≡ false) × All (λ r. contains r.key claimed ≡ false) rs
different-from k claimed [] a = (refl, tt)
different-from k claimed (r ∷ rs) a =
    ground (arith, different-from k claimed rs a.1, same_iff k r.key, same_iff r.key k)

releases_from-Different :
    (env : Env) (rs : Ruleset) (text : String) (refs : List ObligationRef)
    (keys claimed : List String) (spans : List Span)
    → All (λ a. contains a.key keys ≡ true) refs
    → let out = releases_from env rs text refs claimed spans in
      All (λ r. contains r.key claimed ≡ false) out
      × All (λ r. contains r.key keys ≡ true) out
      × Different (released_keys out)
unfolding releases_from
releases_from-Different env rs text refs keys claimed [] known = (tt, tt, tt)
releases_from-Different env rs text refs keys claimed (sp ∷ spans) known =
    elim (Option-cases (release_in env rs text refs claimed sp)) [
      | inl nothing ↦
          rw (All, released_keys, Different, nothing)
            (releases_from-Different env rs text refs keys claimed spans known)
      | inr (r, made) ↦
          let (free, member) = release_in-Open env rs text refs keys claimed sp r known made in
          let (fresh, known', distinct) =
            releases_from-Different env rs text refs keys (r.key ∷ claimed) spans known in
          let (apart, fresh') =
            different-from r.key claimed (releases_from env rs text refs (r.key ∷ claimed) spans)
              fresh in
          rw (All, released_keys, Different, made)
            ((free, fresh'), (member, known'), (apart, distinct))
    ]

known_more :
    (k : String) (keys : List String) (refs : List ObligationRef)
    → All (λ a. contains a.key keys ≡ true) refs
    → All (λ a. contains a.key (k ∷ keys) ≡ true) refs
known_more k keys [] h = tt
known_more k keys (a ∷ refs) h = (ground arith, known_more k keys refs h.1)

keys_known : (refs : List ObligationRef) → All (λ a. contains a.key (ref_keys refs) ≡ true) refs
keys_known [] = tt
keys_known (a ∷ refs) =
    (ground (arith, same_iff a.key a.key), known_more a.key (ref_keys refs) refs (keys_known refs))

-- The resolutions that the marker classifier reads in a text have different keys, each of an
-- obligation that it was given as unresolved.
pub releases_once :
    (env : Env) (rs : Ruleset) (text : String) (refs : List ObligationRef)
    → All (λ r. contains r.key (ref_keys refs) ≡ true) (releases env rs text refs)
      × Different (released_keys (releases env rs text refs))
unfolding releases
releases_once env rs text refs =
    let (fresh, known, distinct) =
      releases_from-Different env rs text refs (ref_keys refs) [] (sentences text)
        (keys_known refs) in
    (known, distinct)
