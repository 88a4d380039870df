-- ===== src/Classify/Heuristic.antt =====
-- internal/classify/heuristic.go: the marker classifier.
pub mod Segments
pub mod Obligations
pub mod Releases
pub mod References
pub mod Guards
use Prim.Native.Char.{code}
use flow_indicator.Base.{
  ℕ, suc, ◌+◌, String, Bool, true, false, not, ◌&&◌, ◌||◌, Option, none, some, List, [], ◌∷◌, same,
  ltb, ◌==◌, if◌then◌else◌, contains, is_some,
}
use flow_indicator.Floats.{Float64, literal}
use flow_indicator.Stream.{Record, Action, is_operator_turn, is_agent, write_targets}
use flow_indicator.Profile.{Ruleset, match, param}
use flow_indicator.Classify.{
  Input, Result, RepairSignal, Capability, obligation_release, verified_repair,
}
use flow_indicator.Classify.Structure.{Env}
use flow_indicator.Classify.Heuristic.Segments.{prior_line_set, segment, first_sentence_matches}
use flow_indicator.Classify.Heuristic.Obligations.{
  extract_obligations, candidates, near_repeats, repeats_unresolved_obligation,
}
use flow_indicator.Classify.Heuristic.Releases.{releases}
use flow_indicator.Classify.Heuristic.References.{
  no_pointer, no_correction, extract_pointer, find_correction,
}

-- `Capabilities`.
abbrev pub capabilities : List Capability
capabilities = obligation_release ∷ verified_repair ∷ []

abbrev newlines : String → ℕ
newlines String.[] = 0
newlines (String.◌∷◌ c s) = let rest = newlines s in if code c == 10 then suc rest else rest

-- The text is delivered material: `bulkPasteLines` is 40.
unfoldable pub is_bulk : Env → Ruleset → String → Bool
unfolding param
is_bulk env rs text =
    ltb (env.truncate (param rs "bulk_paste_lines" (literal 40 1))) (newlines text + 1)

abbrev pub no_repair_signal : RepairSignal
no_repair_signal = record {
  claimed_repaired = false;
  target_repaired = none;
  new_scope = 0;
  new_tasks = 0;
  new_validation = 0;
  new_constraints = 0;
}

-- The result that `Classify` starts from.
unfoldable pub blank : Ruleset → Record → Result
blank rs turn = record {
  segments = [];
  pointer = no_pointer;
  correction = no_correction;
  obligations = [];
  rejected = [];
  resolutions = [];
  near_repeats = [];
  repair = no_repair_signal;
  reset = false;
  stop = false;
  acceptance = false;
  continuation = false;
  confidence = literal 0 1;
  provenance = record {
    classifier = "heuristic";
    version = "5";
    hash = rs.hash;
    source_turn = turn.seq;
    confidence = literal 0 1;
    markers = "";
  };
}

unfoldable pub classify_operator : Env → Ruleset → Input → Result → Result
unfolding is_bulk match extract_obligations releases find_correction segment first_sentence_matches
    prior_line_set near_repeats extract_pointer repeats_unresolved_obligation
classify_operator env rs inp res =
    let text = inp.turn.text in
    let bulk = is_bulk env rs text in
    let found = extract_obligations env rs text in
    let kept = candidates found.kept in
    let p = extract_pointer rs text in
    let repeats = not bulk && repeats_unresolved_obligation kept inp.unresolved_obligations in
    record res {
      reset = match rs "reset" text;
      stop = not bulk && match rs "stop" text;
      acceptance = first_sentence_matches env rs "acceptance" text;
      continuation = first_sentence_matches env rs "continuation" text;
      obligations = kept;
      rejected = candidates found.rejected;
      near_repeats = near_repeats env rs kept inp.unresolved_obligations;
      pointer = p;
      resolutions = if bulk then [] else releases env rs text inp.unresolved_obligations;
      correction = find_correction env rs text bulk repeats kept p;
      segments =
          segment env rs text (prior_line_set env [] inp.prior_operator_text)
            (is_some inp.active_repair);
    }

abbrev pub any_named : List String → List String → Bool
any_named named [] = false
any_named named (w ∷ writes) =
    let later = any_named named writes in if contains w named then true else later

abbrev pub any_outside : List String → List String → Bool
any_outside named [] = false
any_outside named (w ∷ writes) =
    let later = any_outside named writes in if contains w named then later else true

abbrev pub judged : List String → List String → RepairSignal → RepairSignal
judged named [] signal = signal
judged [] writes signal = signal
judged named writes signal = record signal {
  target_repaired = if any_named named writes then some true else signal.target_repaired;
  new_scope = if any_outside named writes then 1 else signal.new_scope;
}

-- `repairFromActions`.
unfoldable pub repair_from_actions : Input → RepairSignal → RepairSignal
unfolding write_targets
repair_from_actions inp signal = elim inp.active_repair [
  | none ↦ signal
  | some active ↦ judged active.target_paths (write_targets inp.turn) signal
]

abbrev bool_to_int : Bool → ℕ
bool_to_int b = if b then 1 else 0

abbrev no_actions : List Action → Bool
no_actions [] = true
no_actions (a ∷ actions) = false

unfoldable pub classify_agent : Env → Ruleset → Input → Result → Result
unfolding repair_from_actions match
classify_agent env rs inp res =
    let text = inp.turn.text in
    let acted = repair_from_actions inp res.repair in
    if same text "" then record res { repair = acted } else record res {
      repair = record acted {
        new_tasks = bool_to_int (match rs "expansion_task" text);
        new_validation = bool_to_int (match rs "expansion_validation" text);
        new_constraints = bool_to_int (match rs "expansion_constraint" text);
        new_scope =
            if no_actions inp.turn.actions
            then bool_to_int (match rs "expansion_scope" text)
            else acted.new_scope;
        claimed_repaired =
            if is_some inp.active_repair && match rs "repair_verb" text
            then true
            else acted.claimed_repaired;
      };
    }

abbrev confident : Float64 → Result → Result
confident c res = record res {
  confidence = c;
  provenance = record (res.provenance) { confidence = c };
}

-- `Classify`; it returns no error.
unfoldable pub classify : Env → Ruleset → Input → Result
unfolding classify_operator classify_agent is_operator_turn blank
classify env rs inp =
    let res = blank rs inp.turn in
    if is_operator_turn inp.turn
    then confident (literal 6 10) (classify_operator env rs inp res)
    else if is_agent inp.turn.speaker_class
    then confident (literal 5 10) (classify_agent env rs inp res)
    else confident (literal 0 1) res
