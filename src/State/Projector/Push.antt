-- ===== src/State/Projector/Push.antt =====
-- `Push`, `Finish` and `StopObservation` of internal/state/projector.go.
use flow_indicator.Base.{
  ℕ, ◌+◌, String, true, false, ◌||◌, Option, none, some, List, [], ◌∷◌, ◌++◌, same, ◌==◌,
  if◌then◌else◌, length, contains, is_some,
}
use flow_indicator.Floats.{literal}
use flow_indicator.Stream.{
  Record, SourceRef, meta, is_operator_turn, is_agent, write_targets, failed_actions, add_members,
}
use flow_indicator.Observe.{Observation, observe}
use flow_indicator.Classify.{Result, Answer, Input, Correction, Provenance}
use flow_indicator.Event.{
  observed, classified, derived, record_observed, classifier_failed, operator_interrupt,
  correction_candidate, observation_stopped, state_at_observation_stop, new_builder,
}
use flow_indicator.State.Log.{empty_log}
use flow_indicator.State.Obligations.{unresolved_candidates}
use flow_indicator.State.Episodes.{
  settle_pollution, finish_active, attribute, project_agent_cycle, count_writes, count_interrupt,
  count_other_record, open_structural_repair, active_repair,
}
use flow_indicator.State.Pointers.{finish_pointers}
use flow_indicator.State.Pointers
use flow_indicator.State.Payloads.{
  Payload, Draft, draft, observed_payload, failure_payload, interrupt_payload, correction_payload,
  observation_stopped_payload, inventory_payload,
}
use flow_indicator.State.Projector.Defs.{
  Setup, Projector, Pass, update, report, with_episodes, with_pointers, moment, u64,
}
use flow_indicator.State.Projector.Classified.{snippet, input, classified_events}
use flow_indicator.State.Projector.Turn.{project_operator}

abbrev pub overlap_of : List String → List String → List String
overlap_of prior [] = []
overlap_of prior (t ∷ ts) =
    let rest = overlap_of prior ts in if contains t prior then t ∷ rest else rest

-- Reading a nil map finds nothing.
abbrev pub members : Option (List String) → List String
members none = []
members (some ts) = ts

abbrev structural_correction : String → List String → Correction
structural_correction t ts = record {
  is_correction = true;
  target_type = "path";
  target_key = t;
  marker = "";
  target_paths = t ∷ ts;
  structural = true;
}

abbrev structural_provenance : Setup → ℕ → Provenance
structural_provenance setup turn = record {
  classifier = "structural";
  version = setup.heuristic_version;
  hash = "";
  source_turn = turn;
  confidence = literal 0 1;
  markers = "";
}

-- The last part of `observeWrites`: the paths `t ∷ ts` were written in both cycles.
unfoldable pub open_structural : Setup → Record → String → List String → Pass → Pass
unfolding open_structural_repair
open_structural setup rec t ts w =
    let p = w.projector in
    let said =
      report
        (draft correction_candidate classified (
            correction_payload (structural_provenance setup p.operator_seq)
              (structural_correction t ts) p.last_agent_seq)
          ∷ [])
        (record w {
          projector = record p {
            prior_writes = none;
            rolling = record (p.rolling) {
              corrections = p.rolling.corrections ++ p.turn_index ∷ [];
            };
          };
        }) in
    with_episodes (open_structural_repair (moment setup p) rec t ts) said

-- `observeWrites`. `none` is the panic of a write into the nil map `cycleWrites`.
unfoldable pub observe_writes : Setup → Record → Pass → Option Pass
unfolding count_writes open_structural
observe_writes setup rec w = elim (write_targets rec) [
  | [] ↦ some w
  | t ∷ ts ↦
      let p = w.projector in
      elim p.cycle_writes [
        | none ↦ none
        | some cycle ↦
            let q = record p {
              cycle_writes = some (add_members cycle (t ∷ ts));
              episodes = count_writes (length (t ∷ ts)) (failed_actions rec) p.episodes;
            } in
            elim (overlap_of (members p.prior_writes) (t ∷ ts)) [
              | [] ↦ some (record w { projector = q })
              | o ∷ os ↦
                  if is_some p.episodes.active || p.operator_seq == 0
                  then some (record w { projector = q })
                  else some (open_structural setup rec o os (record w { projector = q }))
            ]
      ]
]

-- `projectAgent`, then `attribute`.
unfoldable pub project_agent : Record → Result → Projector → Projector
unfolding project_agent_cycle attribute
project_agent rec res p = record p {
  last_agent_seq = rec.seq;
  last_agent_time = rec.timestamp;
  episodes = attribute rec 0 (project_agent_cycle rec.seq res p.episodes);
}

-- The `default` branch of `Push`: tools, the system, and interruption markers.
unfoldable pub project_other : Record → Pass → Pass
unfolding count_interrupt count_other_record attribute
project_other rec w =
    let p = w.projector in
    let interrupted = same (meta rec "input_mode") "interrupt" in
    let marked =
      if interrupted
      then report (draft operator_interrupt observed (interrupt_payload p.turn_index) ∷ [])
          (record w {
            projector = record p {
              rolling = record (p.rolling) {
                interrupts = p.rolling.interrupts ++ p.turn_index ∷ [];
              };
              episodes = count_interrupt p.episodes;
            };
          })
      else w in
    update
      (λ q. record q {
        episodes = attribute rec 0 (count_other_record (failed_actions rec) q.episodes);
      })
      marked

abbrev pub start_cycle : Record → Projector → Projector
start_cycle rec p = record p {
  prior_writes = p.cycle_writes;
  cycle_writes = some [];
  operator_seq = rec.seq;
  operator_time = rec.timestamp;
}

-- The `switch` of `Push`.
unfoldable pub dispatch : Setup → Record → Observation → Result → Pass → Option Pass
unfolding project_operator observe_writes project_agent project_other
dispatch setup rec obs res w =
    if is_operator_turn rec
    then some (project_operator setup rec obs res (update (start_cycle rec) w))
    else if is_agent rec.speaker_class
    then elim (observe_writes setup rec w) [
      | none ↦ none
      | some w' ↦ some (update (project_agent rec res) w')
    ]
    else some (project_other rec w)

abbrev pub failure_drafts : Setup → Option String → List Draft
failure_drafts setup none = []
failure_drafts setup (some error) =
    draft classifier_failed classified
      (failure_payload setup.classifier_name setup.classifier_version error)
    ∷ []

abbrev pub observed_draft : Setup → Record → Observation → Draft
unfolding snippet
observed_draft setup rec obs = draft record_observed observed (
    observed_payload (record {
      turn_id = rec.turn_id;
      speaker = rec.speaker;
      speaker_class = rec.speaker_class;
      timestamp = rec.timestamp;
      observation = obs;
      snippet = snippet setup.config.privacy rec.text;
    }))

-- The record under the ordinal and the stream that the projector gives it.
abbrev pub numbered : Projector → Record → Record
numbered p rec = record rec {
  seq = u64 (p.seq + 1);
  stream_id = if same p.stream_id "" then rec.stream_id else p.stream_id;
}

abbrev started : Projector → Record → Projector
started p rec = record p { seq = rec.seq; stream_id = rec.stream_id }

-- `RecordSeen`, before the classifier is asked.
unfoldable pub recorded : Setup → Record → Projector → Projector × Observation
unfolding observe
recorded setup rec p =
    let (observer, obs) = observe setup.unicode p.observer rec in
    (record (started p rec) { observer = observer }, obs)

-- What `Push` has emitted before its `switch`.
unfoldable pub observed_pass : Setup → Record → Projector → Observation → Answer → Pass
unfolding new_builder classified_events snippet
observed_pass setup rec p obs answer =
    report
      (observed_draft setup rec obs
        ∷ (failure_drafts setup answer.error ++ classified_events p rec answer.result))
      (record {
        projector = p;
        log = empty_log setup.marshals (new_builder rec.stream_id rec.seq p.epoch rec.source);
      })

-- The body of `Push`, for the answer that the classifier gives at this record, to its end or to
-- the first payload that `Emit` panics on. `none` is the panic of `observeWrites`.
unfoldable pub attempt : Setup → (Input → Answer) → Record → Projector → Option Pass
unfolding dispatch recorded input observed_pass
attempt setup classify rec₀ p₀ =
    let rec = numbered p₀ rec₀ in
    let (p, obs) = recorded setup rec p₀ in
    let answer = classify (input p rec) in
    dispatch setup rec obs answer.result (observed_pass setup rec p obs answer)

abbrev pub unless : Option Payload → Pass → Option Pass
unless none w = some w
unless (some x) w = none

-- A pass in which `Emit` panicked does not return.
abbrev pub returned : Option Pass → Option Pass
returned none = none
returned (some w) = unless w.log.panic w

-- `Push`. `none` is a panic, of either kind.
unfoldable pub push : Setup → (Input → Answer) → Record → Projector → Option Pass
unfolding attempt
push setup classify rec p = returned (attempt setup classify rec p)

abbrev projector_source : SourceRef
projector_source = record { adapter = "projector"; path = ""; offset = 0; record_sha256 = "" }

abbrev last_pass : Setup → Projector → Pass
unfolding new_builder
last_pass setup p = record {
  projector = p;
  log = empty_log setup.marshals (new_builder p.stream_id p.seq p.epoch projector_source);
}

-- `Finish`. It panics if the log of the pass says so.
unfoldable pub finish : Setup → Projector → Pass
unfolding settle_pollution finish_pointers finish_active new_builder
finish setup p = with_episodes finish_active (
    with_pointers (finish_pointers setup.config.window.rolling_turns)
      (with_episodes (settle_pollution false) (last_pass setup p)))

-- `StopObservation`. It panics if the log of the pass says so.
unfoldable pub stop_observation : Setup → ℕ → String → Projector → Pass
unfolding unresolved_candidates new_builder
stop_observation setup offset reason p =
    report
      (draft observation_stopped observed (observation_stopped_payload reason offset p.seq)
        ∷ draft state_at_observation_stop derived (
            inventory_payload (record {
              epoch = p.epoch;
              open_repair = elim (active_repair p.episodes) [ none ↦ 0 | some r ↦ r.id ];
              pending_pointers = Pointers.count p.pointers.pending;
              awaiting_durability = length p.episodes.closing;
              unresolved_candidates = length (unresolved_candidates p.obligations);
            }))
        ∷ [])
      (last_pass setup p)

-- A stream of records, each with the answer that the classifier gives at it.
unfoldable pub run : Setup → List ((Input → Answer) × Record) → Projector → Option Projector
unfolding push
run setup [] p = some p
run setup ((classify, rec) ∷ rs) p = elim (push setup classify rec p) [
  | none ↦ none
  | some w ↦ run setup rs w.projector
]
