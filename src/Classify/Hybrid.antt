-- ===== src/Classify/Hybrid.antt =====
-- internal/classify/async.go: the marker tier on the source path, with a copy sent to the pool; and
-- internal/classify/none.go, the classifier that reads nothing.
use Prim.Native.String.{len}
use flow_indicator.Base.{
  ℕ, ◌≡◌, refl, inl, inr, String, Bool, false, not, ◌||◌, Option, none, some, [], same, ltb,
  if◌then◌else◌, Bool-cases, arith,
}
use flow_indicator.Floats.{literal}
use flow_indicator.Profile.{Ruleset}
use flow_indicator.Classify.{Input, Result, Answer}
use flow_indicator.Classify.Structure.{Env}
use flow_indicator.Classify.Heuristic.{classify, no_repair_signal}
use flow_indicator.Classify.Heuristic.References.{no_pointer, no_correction}
use flow_indicator.Classify.OpenAi.{worth_sending, max_turn_bytes}
use flow_indicator.Classify.Worker.{Worker, Submission, submit, after_close}

pub record Hybrid : Type 0 where
  pub worker : Worker
  pub epoch : ℕ

-- `SetEpoch`.
unfoldable pub set_epoch : ℕ → Hybrid → Hybrid
set_epoch epoch h = record h { epoch = epoch }

-- A full queue is no error of the classification.
abbrev submit_error : Submission → Option String
submit_error after_close = some "hybrid: submit semantic job"
submit_error _ = none

-- What is not sent: no text, nothing to judge, or a text that is too long.
unfoldable pub stays_here : Input → Bool
unfolding worth_sending
stays_here inp =
    same inp.turn.text "" || not (worth_sending inp) || ltb max_turn_bytes (len inp.turn.text)

abbrev answer : Result → Option String → Answer
answer res e = record { result = res; error = e }

-- `Classify` of the hybrid. The markers return no error.
unfoldable pub classify_hybrid : Env → Ruleset → Input → Hybrid → Hybrid × Answer
unfolding classify stays_here submit
classify_hybrid env rs inp h =
    let res = classify env rs inp in
    if stays_here inp
    then (h, answer res none)
    else let (w, s) = submit inp.turn.stream_id h.epoch inp h.worker in
      (record h { worker = w }, answer res (submit_error s))

-- The pool never changes what the markers say, and only a closed pool makes an error.
pub classify_hybrid-markers :
    (env : Env) (rs : Ruleset) (inp : Input) (h : Hybrid)
    → h.worker.closed ≡ false
    → (classify_hybrid env rs inp h).1 ≡ answer (classify env rs inp) none
unfolding classify_hybrid submit
classify_hybrid-markers env rs inp h runs = elim (Bool-cases (stays_here inp)) [
  | inl here ↦ rw here refl
  | inr sent ↦ ground arith
]

-- `Classify` of None.
unfoldable pub classify_none : Input → Result
classify_none inp = record {
  segments = [];
  pointer = no_pointer;
  correction = no_correction;
  obligations = [];
  rejected = [];
  resolutions = [];
  near_repeats = [];
  repair = no_repair_signal;
  reset = false;
  stop = false;
  acceptance = false;
  continuation = false;
  confidence = literal 0 1;
  provenance = record {
    classifier = "none";
    version = "1";
    hash = "none";
    source_turn = inp.turn.seq;
    confidence = literal 0 1;
    markers = "";
  };
}
