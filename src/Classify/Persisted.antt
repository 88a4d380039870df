-- ===== src/Classify/Persisted.antt =====
-- internal/classify/persisted.go: the selection of one stored completion for each turn.
use flow_indicator.Base.{
  ℕ, ◌≡◌, refl, ◌∙◌, inl, inr, String, Bool, true, false, ◌&&◌, Option, none, some, List, [], ◌∷◌,
  ◌++◌, same, ◌==◌, if◌then◌else◌, Bool-cases, arith,
}
use flow_indicator.Floats.{literal}
use flow_indicator.Profile.{Ruleset}
use flow_indicator.Classify.{Input, Result, Answer, Provenance}
use flow_indicator.Classify.Structure.{Env}
use flow_indicator.Classify.Heuristic.{classify, no_repair_signal}
use flow_indicator.Classify.Hybrid.{stays_here}
use flow_indicator.Classify.Worker.{Identity, Job, Completion, completed, Status}

pub data Issue : Type 0 where
  missing_result : ℕ → Issue
  ambiguous_result : ℕ → Issue

-- `entries` is the map `bySeq`: the completions of one sequence number, in their order.
pub record Persisted : Type 0 where
  pub identity : Identity
  pub entries : List (Job × Result)
  pub missing : List ℕ
  pub issue : Option Issue

pub data Built : Type 0 where
  built : Persisted → Built
  foreign_provenance : String → Built

abbrev is_from : Identity → Job → Bool
is_from i job =
    same job.classifier i.name
    && same job.classifier_version i.version
    && same job.classifier_hash i.hash

abbrev is_stamped : Job → Provenance → Bool
is_stamped job p =
    same p.classifier job.classifier
    && same p.version job.classifier_version
    && same p.hash job.classifier_hash

abbrev is_completed : Status → Bool
is_completed completed = true
is_completed _ = false

unfoldable pub collect : Identity → List (Job × Result) → List Completion → Built
collect i entries [] =
    built (record { identity = i; entries = entries; missing = []; issue = none })
collect i entries (c ∷ completions) = elim c.result [
  | none ↦ collect i entries completions
  | some res ↦ elim (is_completed c.status && is_from i c.job) [
    | false ↦ collect i entries completions
    | true ↦ elim (is_stamped c.job res.provenance) [
      | false ↦ foreign_provenance c.job.id
      | true ↦ collect i (entries ++ (c.job, res) ∷ []) completions
    ]
  ]
]

-- `NewPersisted`, of a classifier that is not nil.
unfoldable pub new_persisted : Identity → List Completion → Built
unfolding collect
new_persisted i completions = collect i [] completions

abbrev is_match : Identity → Input → Job → Bool
is_match i inp job =
    job.seq == inp.turn.seq
    && same job.stream_id inp.turn.stream_id
    && same job.input_hash (i.sha256 (i.json inp))

unfoldable pub matches : Identity → Input → List (Job × Result) → List Result
matches i inp [] = []
matches i inp (e ∷ entries) =
    let later = matches i inp entries in if is_match i inp e.0 then e.1 ∷ later else later

-- `if p.issue == nil { p.issue = err }`.
abbrev first_issue : Option Issue → Issue → Option Issue
first_issue none e = some e
first_issue (some old) e = some old

abbrev answer : Result → Option String → Answer
answer res e = record { result = res; error = e }

-- `Result{}`.
abbrev zero_result : Result
zero_result = record {
  segments = [];
  pointer = record { is_pointer = false; pointer_type = ""; chars = 0; text = "" };
  correction = record {
    is_correction = false;
    target_type = "";
    target_key = "";
    marker = "";
    target_paths = [];
    structural = false;
  };
  obligations = [];
  rejected = [];
  resolutions = [];
  near_repeats = [];
  repair = no_repair_signal;
  reset = false;
  stop = false;
  acceptance = false;
  continuation = false;
  confidence = literal 0 1;
  provenance = record {
    classifier = "";
    version = "";
    hash = "";
    source_turn = 0;
    confidence = literal 0 1;
    markers = "";
  };
}

abbrev select : Env → Ruleset → Input → Persisted → List Result → Persisted × Answer
select env rs inp p [] = (
  record p {
    missing = p.missing ++ inp.turn.seq ∷ [];
    issue = first_issue p.issue (missing_result inp.turn.seq);
  },
  answer (classify env rs inp) (some "persisted semantic result is missing"),
)
select env rs inp p (res ∷ []) = (p, answer res none)
select env rs inp p (res ∷ other ∷ more) = (
  record p { issue = first_issue p.issue (ambiguous_result inp.turn.seq) },
  answer zero_result (some "persisted semantic result is ambiguous"),
)

-- `Classify`.
unfoldable pub classify_persisted : Env → Ruleset → Input → Persisted → Persisted × Answer
unfolding classify stays_here matches
classify_persisted env rs inp p =
    if stays_here inp
    then (p, answer (classify env rs inp) none)
    else select env rs inp p (matches p.identity inp p.entries)

matches-append :
    (i : Identity) (inp : Input) (xs ys : List (Job × Result))
    → matches i inp (xs ++ ys) ≡ matches i inp xs ++ matches i inp ys
unfolding matches
matches-append i inp [] ys = refl
matches-append i inp (x ∷ xs) ys = ground (arith, matches-append i inp xs ys)

select_any :
    (env : Env) (rs : Ruleset) (inp : Input) (p q : Persisted) (xs : List Result)
    → (select env rs inp p xs).1 ≡ (select env rs inp q xs).1
select_any env rs inp p q [] = refl
select_any env rs inp p q (x ∷ []) = refl
select_any env rs inp p q (x ∷ y ∷ xs) = refl

select-swap :
    (env : Env) (rs : Ruleset) (inp : Input) (p : Persisted) (xs ys : List Result)
    → (select env rs inp p (xs ++ ys)).1 ≡ (select env rs inp p (ys ++ xs)).1
select-swap env rs inp p [] [] = refl
select-swap env rs inp p [] (y ∷ []) = refl
select-swap env rs inp p [] (y ∷ z ∷ ys) = refl
select-swap env rs inp p (x ∷ []) [] = refl
select-swap env rs inp p (x ∷ w ∷ xs) [] = refl
select-swap env rs inp p (x ∷ []) (y ∷ []) = refl
select-swap env rs inp p (x ∷ []) (y ∷ z ∷ ys) = refl
select-swap env rs inp p (x ∷ w ∷ xs) (y ∷ []) = refl
select-swap env rs inp p (x ∷ w ∷ xs) (y ∷ z ∷ ys) = refl

-- Two parts of a store answer alike in either order.
pub classify_persisted-swap :
    (env : Env) (rs : Ruleset) (inp : Input) (p : Persisted) (xs ys : List (Job × Result))
    → (classify_persisted env rs inp (record p { entries = xs ++ ys })).1
      ≡ (classify_persisted env rs inp (record p { entries = ys ++ xs })).1
unfolding classify_persisted
classify_persisted-swap env rs inp p xs ys = elim (Bool-cases (stays_here inp)) [
  | inl here ↦ rw here refl
  | inr asked ↦
      let swapped =
        select-swap env rs inp p (matches p.identity inp xs) (matches p.identity inp ys) in
      rw
        (
          classify_persisted,
          asked,
          matches-append p.identity inp xs ys,
          matches-append p.identity inp ys xs,
        )
        (select_any env rs inp (record p { entries = xs ++ ys }) p
            (matches p.identity inp xs ++ matches p.identity inp ys)
          ∙ swapped
          ∙ select_any env rs inp p (record p { entries = ys ++ xs })
              (matches p.identity inp ys ++ matches p.identity inp xs))
]
