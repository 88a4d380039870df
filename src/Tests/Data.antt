-- ===== src/Tests/Data.antt =====
-- A configuration, records and classifier answers to run the model on.
use Prim.Native.Char.{code}
use flow_indicator.Base.{
  ℕ, String, Bool, true, false, ◌&&◌, Option, none, some, List, [], ◌∷◌, ◌==◌, ltb,
}
use flow_indicator.Floats.{exact, literal}
use flow_indicator.Stream.{
  Record, Unicode, SpeakerClass, human, agent, tool, Action, write, SourceRef,
}
use flow_indicator.Config.{Config}
use flow_indicator.Classify.{
  Result, Input, Answer, ObligationCandidate, released, obligation_release, forward_work,
}
use flow_indicator.State.Payloads.{Payload, repair_payload, repair_status_payload}
use flow_indicator.State.Repair.{Repair}
use flow_indicator.State.Times.{nanoseconds}
use flow_indicator.State.Projector.Defs.{Setup}
use flow_indicator.State.Episodes.Corrections.{Moment}

abbrev pub ascii : Unicode
ascii = record {
  to_lower = λ c. c;
  is_space = λ c. code c == 32;
  is_punct = λ c. code c == 46;
  is_letter = λ c. true;
  is_digit = λ c. false;
}

abbrev pub config : Config
config = record {
  window = record {
    rolling_turns = 4;
    correction_durability_turns = 1;
    dereference_outcome_turns = 2;
    trend_durability_turns = 2;
  };
  thresholds = record {
    minimum_control_baseline = 1;
    thrash_repair_depth = 3;
    serialization_warn = literal 2 1;
    serialization_high = literal 4 1;
    repeated_obligations_warn = 2;
  };
  privacy = record { store_text = false; store_snippets = true; snippet_chars = 8 };
}

-- json.Marshal refuses a time after year 9999.
abbrev pub is_closed_in_time : Option ℕ → Bool
is_closed_in_time none = true
is_closed_in_time (some t) = ltb t nanoseconds

abbrev pub in_time : Repair → Bool
in_time r = ltb r.start nanoseconds && ltb r.last_activity nanoseconds && is_closed_in_time r.closed

abbrev pub encoder : Payload → Bool
encoder (repair_payload r l) = in_time r
encoder (repair_status_payload r s w) = in_time r
encoder _ = true

abbrev pub setup : Setup
setup = record {
  config = config;
  capabilities = obligation_release ∷ [];
  classifier_name = "fixed";
  classifier_version = "1";
  heuristic_version = "1";
  floats = exact;
  unicode = ascii;
  marshals = encoder;
}

abbrev pub nowhere : SourceRef
nowhere = record { adapter = "generic"; path = "a.jsonl"; offset = 0; record_sha256 = "" }

abbrev pub said : SpeakerClass → ℕ → String → List Action → Record
said speaker timestamp text actions = record {
  stream_id = "s";
  turn_id = "t";
  seq = 0;
  timestamp = timestamp;
  speaker = "";
  speaker_class = speaker;
  text = text;
  actions = actions;
  reply_to = "";
  source = nowhere;
  metadata = [];
}

abbrev pub edit : Action
edit = record { verb = write; targets = "a.go" ∷ []; argv = []; was_failed = false }

abbrev pub request : Record
request = said human 10 "add a flag" []

abbrev pub reply : Record
reply = said agent 20 "done" (edit ∷ [])

abbrev pub complaint : Record
complaint = said human 30 "no, not that file" []

abbrev pub output : Record
output = said tool 25 "ok" []

abbrev pub plain : Result
plain = record {
  segments = record { label = forward_work; start = 0; end = 10; chars = 10 } ∷ [];
  pointer = record { is_pointer = false; pointer_type = ""; chars = 0; text = "" };
  correction = record {
    is_correction = false;
    target_type = "";
    target_key = "";
    marker = "";
    target_paths = [];
    structural = false;
  };
  obligations = [];
  rejected = [];
  resolutions = [];
  near_repeats = [];
  repair = record {
    claimed_repaired = false;
    target_repaired = none;
    new_scope = 0;
    new_tasks = 0;
    new_validation = 0;
    new_constraints = 0;
  };
  reset = false;
  stop = false;
  acceptance = false;
  continuation = false;
  confidence = literal 1 1;
  provenance = record {
    classifier = "fixed";
    version = "1";
    hash = "";
    source_turn = 0;
    confidence = literal 1 1;
    markers = "";
  };
}

abbrev pub correcting : Result
correcting = record plain {
  segments = [];
  correction = record {
    is_correction = true;
    target_type = "path";
    target_key = "a.go";
    marker = "no";
    target_paths = "a.go" ∷ [];
    structural = false;
  };
}

abbrev pub short_candidate : ObligationCandidate
short_candidate = record {
  key = "keep it short";
  kind = "constraint";
  text = "keep it short";
  repeat_key = "short";
}

abbrev pub demanding : Result
demanding = record plain { obligations = short_candidate ∷ [] }

abbrev pub releasing : Result
releasing = record plain {
  resolutions = record { key = "keep it short"; kind = released; evidence = "never mind" } ∷ [];
}

abbrev pub answering : Result → Input → Answer
answering res i = record { result = res; error = none }

abbrev pub now : Moment
now = record {
  durability = 1;
  turn_index = 2;
  epoch = 0;
  last_agent_seq = 2;
  last_agent_time = 20;
  operator_seq = 1;
  operator_time = 10;
}
