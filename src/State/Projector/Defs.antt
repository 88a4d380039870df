-- ===== src/State/Projector/Defs.antt =====
-- The state of `Projector` in internal/state/projector.go.
use flow_indicator.Base.{ℕ, ◌%◌, ◌^◌, String, Bool, false, Option, none, List, []}
use flow_indicator.Floats.{Floats}
use flow_indicator.Stream.{Unicode}
use flow_indicator.Observe.{Observer, new_observer, reset_observer}
use flow_indicator.Config.{Config}
use flow_indicator.Classify.{Capability}
use flow_indicator.Metrics.{Buckets}
use flow_indicator.Metrics.Snapshot.{Snapshot, Regime, flow}
use flow_indicator.State.Obligations.{Obligations, new_obligations}
use flow_indicator.State.Trend.{TrendTracker, new_trend_tracker}
use flow_indicator.State.Episodes.{Episodes, no_episodes, Moment}
use flow_indicator.State.Pointers.{Pointers, no_pointers}
use flow_indicator.State.Log.{Log, say}
use flow_indicator.State.Payloads.{Draft, Payload}

-- What `New` fixes for the life of a projector, and the tables and comparisons that the code takes
-- from the language: `marshals` tells which payloads json.Marshal takes. The classifier itself
-- answers each `push`.
pub record Setup : Type 0 where
  pub config : Config
  pub capabilities : List Capability
  pub classifier_name : String
  pub classifier_version : String
  pub heuristic_version : String
  pub floats : Floats
  pub unicode : Unicode
  pub marshals : Payload → Bool

pub record TurnSample : Type 0 where
  pub chars : ℕ
  pub buckets : Buckets

-- The lists that an epoch starts afresh; `baseline` and `failures` are among the pointers.
pub record Rolling : Type 0 where
  pub window : List TurnSample
  pub corrections : List ℕ
  pub interrupts : List ℕ
  pub prior_operator_text : List String
  pub obligation_repeats : List ℕ

abbrev pub no_rolling : Rolling
no_rolling = record {
  window = [];
  corrections = [];
  interrupts = [];
  prior_operator_text = [];
  obligation_repeats = [];
}

-- A nil map is `none`. `snapshot` is `none` before the first operator turn.
pub record Projector : Type 0 where
  pub stream_id : String
  pub seq : ℕ
  pub epoch : ℕ
  pub turn_index : ℕ
  pub observer : Observer
  pub obligations : Obligations
  pub trends : TrendTracker
  pub episodes : Episodes
  pub pointers : Pointers
  pub rolling : Rolling
  pub last_agent_seq : ℕ
  pub last_agent_time : ℕ
  pub cycle_writes : Option (List String)
  pub prior_writes : Option (List String)
  pub operator_seq : ℕ
  pub operator_time : ℕ
  pub reset_pending : Bool
  pub regime : Regime
  pub snapshot : Option Snapshot

-- `New`.
unfoldable pub new_projector : Setup → String → Projector
unfolding new_observer new_obligations
new_projector setup stream_id = record {
  stream_id = stream_id;
  seq = 0;
  epoch = 0;
  turn_index = 0;
  observer = new_observer setup.config.window.rolling_turns;
  obligations = new_obligations;
  trends = new_trend_tracker;
  episodes = no_episodes;
  pointers = no_pointers;
  rolling = no_rolling;
  last_agent_seq = 0;
  last_agent_time = 0;
  cycle_writes = none;
  prior_writes = none;
  operator_seq = 0;
  operator_time = 0;
  reset_pending = false;
  regime = flow;
  snapshot = none;
}

-- The wrap of a uint64.
abbrev pub u64 : ℕ → ℕ
u64 n = n % 2 ^ 64

-- A projector within the handling of one record, with the events so far.
pub record Pass : Type 0 where
  pub projector : Projector
  pub log : Log

abbrev pub update : (Projector → Projector) → Pass → Pass
update f w = record w { projector = f w.projector }

abbrev pub report : List Draft → Pass → Pass
report ds w = record w { log = say ds w.log }

-- Runs a method of the episodes, and emits what it emitted.
abbrev pub with_episodes : (Episodes → Episodes × List Draft) → Pass → Pass
with_episodes f w =
    let r = f w.projector.episodes in
    report r.1 (record w { projector = record (w.projector) { episodes = r.0 } })

abbrev pub with_pointers : (Pointers → Pointers × List Draft) → Pass → Pass
with_pointers f w =
    let r = f w.projector.pointers in
    report r.1 (record w { projector = record (w.projector) { pointers = r.0 } })

abbrev pub moment : Setup → Projector → Moment
moment setup p = record {
  durability = setup.config.window.correction_durability_turns;
  turn_index = p.turn_index;
  epoch = p.epoch;
  last_agent_seq = p.last_agent_seq;
  last_agent_time = p.last_agent_time;
  operator_seq = p.operator_seq;
  operator_time = p.operator_time;
}

-- `clearRolling`.
unfoldable pub clear_rolling : Projector → Projector
unfolding reset_observer
clear_rolling p = record p {
  reset_pending = false;
  observer = reset_observer p.observer;
  pointers = record (p.pointers) { baseline = []; failures = [] };
  rolling = no_rolling;
}
