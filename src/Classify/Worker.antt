-- ===== src/Classify/Worker.antt =====
-- internal/classify/async.go: the bounded pool that classifies away from the source reader.
--
-- A step is one atomic action of one goroutine: a critical section of the mutex, or a communication
-- on a channel. The copies that `newJob` makes of its input are the input itself here.
pub mod Counting
use Prim.Native.String.{slice}
use flow_indicator.Base.{
  ℕ, suc, ◌+◌, ◌-◌, ◌*◌, ◌/◌, ◌≡◌, ◌<◌, String, Bool, true, false, not, ◌&&◌, ◌||◌, Option, none,
  some, List, [], ◌∷◌, ◌++◌, ltb, ◌==◌, if◌then◌else◌, length, get_elem?, push_bounded,
}
use flow_indicator.Stream.{SourceRef, append_text}
use flow_indicator.Metrics.{sort_ints}
use flow_indicator.Classify.{Input, Result}

-- What the classifier and Go's library give a job: its name, its version and its hash, the JSON of
-- an input, a SHA-256 sum in hexadecimal, and a number in decimal.
pub record Identity : Type 0 where
  pub name : String
  pub version : String
  pub hash : String
  pub json : Input → String
  pub sha256 : String → String
  pub decimal : ℕ → String

pub record Job : Type 0 where
  pub id : String
  pub stream_id : String
  pub seq : ℕ
  pub epoch : ℕ
  pub source : SourceRef
  pub input_hash : String
  pub classifier : String
  pub classifier_version : String
  pub classifier_hash : String
  pub input : Input

pub data Status : Type 0 where
  completed failed timed_out canceled : Status

pub record Completion : Type 0 where
  pub job : Job
  pub status : Status
  pub result : Option Result
  pub error : String
  pub latency_ms : ℕ

pub record Operational : Type 0 where
  pub requested : ℕ
  pub completed : ℕ
  pub failed : ℕ
  pub timed_out : ℕ
  pub canceled : ℕ
  pub dropped : ℕ
  pub pending : ℕ
  pub last_ms : ℕ

-- `jobs` and `results` are the channels. `running` holds the jobs received and not yet recorded,
-- `sending` the completions recorded and not yet sent, `live` counts the goroutines of `run` that
-- have not returned. `closed` is set with the context's end; `ended` when `Close` has settled.
pub record Worker : Type 0 where
  pub identity : Identity
  pub workers : ℕ
  pub queue : ℕ
  pub jobs : List Job
  pub running : List Job
  pub sending : List Completion
  pub results : List Completion
  pub live : ℕ
  pub closed : Bool
  pub ended : Bool
  pub stats : Operational
  pub latency : List ℕ

pub data Started : Type 0 where
  started : Worker → Started
  no_classifier few_workers short_queue : Started

abbrev pub no_operation : Operational
no_operation = record {
  requested = 0;
  completed = 0;
  failed = 0;
  timed_out = 0;
  canceled = 0;
  dropped = 0;
  pending = 0;
  last_ms = 0;
}

abbrev pub fresh : Identity → ℕ → ℕ → Worker
fresh identity workers queue = record {
  identity = identity;
  workers = workers;
  queue = queue;
  jobs = [];
  running = [];
  sending = [];
  results = [];
  live = workers;
  closed = false;
  ended = false;
  stats = no_operation;
  latency = [];
}

-- `NewWorkerWithDeadline`; the deadline, refused when negative, only bounds the classifier's call.
unfoldable pub new_worker : Option Identity → ℕ → ℕ → Started
new_worker none workers queue = no_classifier
new_worker (some identity) workers queue =
    if ltb workers 1
    then few_workers
    else if ltb queue 1
    then short_queue
    else started (fresh identity workers queue)

abbrev text_of : List String → String
text_of [] = ""
text_of (t ∷ ts) = append_text t (text_of ts)

-- `newJob`, with `InputHash`.
unfoldable pub new_job : Identity → String → ℕ → Input → Job
new_job i stream_id epoch inp =
    let hash = i.sha256 (i.json inp) in
    let seed = text_of (
      stream_id
      ∷ "\0"
      ∷ i.decimal inp.turn.seq
      ∷ "\0"
      ∷ i.name
      ∷ "\0"
      ∷ i.version
      ∷ "\0"
      ∷ i.hash
      ∷ "\0"
      ∷ hash
      ∷ []) in
    record {
      id = slice (i.sha256 seed) 0 24;
      stream_id = stream_id;
      seq = inp.turn.seq;
      epoch = epoch;
      source = inp.turn.source;
      input_hash = hash;
      classifier = i.name;
      classifier_version = i.version;
      classifier_hash = i.hash;
      input = inp;
    }

pub data Submission : Type 0 where
  accepted : Job → Submission
  after_close queue_full : Submission

-- `case w.jobs <- job` and `default` of `Submit`.
abbrev pub enqueue : Job → Worker → Worker
enqueue job w = record w {
  jobs = w.jobs ++ job ∷ [];
  stats = record (w.stats) { requested = w.stats.requested + 1; pending = w.stats.pending + 1 };
}

abbrev pub decline : Worker → Worker
decline w = record w { stats = record (w.stats) { dropped = w.stats.dropped + 1 } }

-- `Submit`.
unfoldable pub submit : String → ℕ → Input → Worker → Worker × Submission
unfolding new_job
submit stream_id epoch inp w =
    let job = new_job w.identity stream_id epoch inp in
    if w.closed
    then (w, after_close)
    else if ltb (length w.jobs) w.queue
    then (enqueue job w, accepted job)
    else (decline w, queue_full)

-- What the classifier returned: `errors.Is` tells the kinds of error apart.
pub data Verdict : Type 0 where
  answered : Result → Verdict
  deadline_exceeded context_canceled other_error : String → Verdict

abbrev completion : Job → Verdict → ℕ → Completion
completion job (answered res) ms = record {
  job = job;
  status = completed;
  result = some res;
  error = "";
  latency_ms = ms;
}
completion job (deadline_exceeded e) ms = record {
  job = job;
  status = timed_out;
  result = none;
  error = e;
  latency_ms = ms;
}
completion job (context_canceled e) ms = record {
  job = job;
  status = canceled;
  result = none;
  error = e;
  latency_ms = ms;
}
completion job (other_error e) ms = record {
  job = job;
  status = failed;
  result = none;
  error = e;
  latency_ms = ms;
}

abbrev count_status : Status → Operational → Operational
count_status completed s = record s { completed = s.completed + 1 }
count_status canceled s = record s { canceled = s.canceled + 1 }
count_status timed_out s = record s { timed_out = s.timed_out + 1 }
count_status failed s = record s { failed = s.failed + 1 }

-- `record`, of the counters and of the latencies.
unfoldable pub record_completion : Completion → Worker → Worker
unfolding push_bounded
record_completion c w = record w {
  stats = count_status c.status (record (w.stats) {
    pending = if ltb 0 w.stats.pending then w.stats.pending - 1 else w.stats.pending;
    last_ms = c.latency_ms;
  });
  latency = push_bounded 256 w.latency c.latency_ms;
}

-- `Close`, to the end of its first critical section, and its last one.
unfoldable pub begin_close : Worker → Worker
begin_close w = record w { closed = true }

unfoldable pub settle : Worker → Worker
settle w =
    if ltb 0 w.stats.pending
    then record w {
      ended = true;
      stats = record (w.stats) { canceled = w.stats.canceled + w.stats.pending; pending = 0 };
    }
    else record w { ended = true }

-- `percentile`: an index out of range, where Go panics, is `none`.
unfoldable pub percentile : List ℕ → ℕ → Option ℕ
percentile [] p = some 0
percentile (x ∷ sorted) p =
    let i = (length (x ∷ sorted) * p + 99) / 100 in
    get_elem? (x ∷ sorted) ((if i == 0 then 1 else i) - 1)

pub record View : Type 0 where
  pub stats : Operational
  pub p50_ms : Option ℕ
  pub p95_ms : Option ℕ

-- `Snapshot`; before the first completion both percentiles are 0.
unfoldable pub snapshot : Worker → View
unfolding percentile sort_ints
snapshot w =
    let sorted = sort_ints w.latency in
    record { stats = w.stats; p50_ms = percentile sorted 50; p95_ms = percentile sorted 95 }

-- The actions of the caller, of the goroutines of `run`, of the reader of the results and of
-- `Close`. With the context ended, a `select` may still take any case that is ready.
pub data Step : Worker → Worker → Type 0 where
  submits :
      (w : Worker) (stream_id : String) (epoch : ℕ) (inp : Input)
      → Step w (submit stream_id epoch inp w).0
  receives :
      (w : Worker) (job : Job) (jobs : List Job)
      → w.jobs ≡ job ∷ jobs
      → length w.running + length w.sending < w.live
      → Step w (record w { jobs = jobs; running = job ∷ w.running })
  records :
      (w : Worker) (before after : List Job) (job : Job) (v : Verdict) (ms : ℕ)
      → w.running ≡ before ++ job ∷ after
      → Step w (
          record_completion
            (completion job v ms)
            (record w { running = before ++ after; sending = completion job v ms ∷ w.sending }))
  sends :
      (w : Worker) (before after : List Completion) (c : Completion)
      → w.sending ≡ before ++ c ∷ after
      → length w.results < w.workers
      → Step w (record w { sending = before ++ after; results = w.results ++ c ∷ [] })
  delivers :
      (w : Worker) (c : Completion) (results : List Completion)
      → w.results ≡ c ∷ results
      → Step w (record w { results = results })
  returns :
      (w : Worker)
      → w.closed ≡ true
      → length w.running + length w.sending < w.live
      → Step w (record w { live = w.live - 1 })
  abandons :
      (w : Worker) (before after : List Completion) (c : Completion)
      → w.closed ≡ true
      → w.sending ≡ before ++ c ∷ after
      → Step w (record w { sending = before ++ after; live = w.live - 1 })
  closes : (w : Worker) → Step w (begin_close w)
  settles : (w : Worker) → w.closed ≡ true → w.live ≡ 0 → Step w (settle w)

pub data Steps : Worker → Worker → Type 0 where
  stop : (w : Worker) → Steps w w
  next : (u v w : Worker) → Step u v → Steps v w → Steps u w
