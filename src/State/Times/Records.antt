-- ===== src/State/Times/Records.antt =====
-- A record at a time in its years stops no pass in `Emit`; internal/state/projector.go.
use flow_indicator.Base.{
  List-cases, ℕ, ◌≡◌, refl, inl, inr, String, Bool, Option, none, some, List, ◌∷◌, Option-cases,
  Bool-cases, is_some, ◌||◌, ◌==◌, same, length, All,
}
use flow_indicator.Stream.{
  Record, is_operator_turn, is_agent, write_targets, meta, add_members, failed_actions,
}
use flow_indicator.Observe.{Observation}
use flow_indicator.Classify.{Result, Answer, Input}
use flow_indicator.State.Episodes.{
  Episodes, count_writes, count_interrupt, count_other_record, project_agent_cycle,
}
use flow_indicator.State.Payloads.{Payload}
use flow_indicator.State.Projector.Defs.{Setup, Projector, Pass, update, moment}
use flow_indicator.State.Projector.Classified.{input}
use flow_indicator.State.Projector.Push.{
  observe_writes, overlap_of, members, open_structural, project_agent, project_other, dispatch,
  attempt, numbered, start_cycle, recorded, observed_pass, failure_drafts,
}
use flow_indicator.State.Times.{InYears, IsTimed, IsEncoder, AllFit}
use flow_indicator.State.Times.Passes.{TimedProjector, IsCalm, project_operator-IsCalm, say-CalmLog}
use flow_indicator.State.Times.Settled.{attribute-IsTimed}
use flow_indicator.State.Times.Projected.{open_structural_repair-IsTimed}
use flow_indicator.State.Times.Drafts.{append-AllFit, classified_events-AllFit}

-- A pass that is there has not stopped in `Emit`.
abbrev pub CalmPass : (Payload → Bool) → Option Pass → Type 0
CalmPass m none = Unit
CalmPass m (some w) = IsCalm m w

failure_drafts-AllFit :
    (setup : Setup) (error : Option String) → AllFit (failure_drafts setup error)
failure_drafts-AllFit setup none = tt
failure_drafts-AllFit setup (some error) = (tt, tt)

module _ (m : Payload → Bool) (enc : IsEncoder m) where
  observed_pass-IsCalm :
      (setup : Setup) (rec : Record) (p : Projector) (obs : Observation) (answer : Answer)
      → setup.marshals ≡ m
      → TimedProjector p
      → IsCalm m (observed_pass setup rec p obs answer)
  unfolding observed_pass
  observed_pass-IsCalm setup rec p obs answer e v = (
    say-CalmLog m enc _ _
        (
          tt,
          append-AllFit (failure_drafts setup answer.error) _
              (failure_drafts-AllFit setup answer.error)
              (classified_events-AllFit p rec answer.result),
        )
        (refl, e),
    v,
  )

  count_writes-IsTimed :
      (n k : ℕ) (e : Episodes) → All IsTimed e.repairs → All IsTimed (count_writes n k e).repairs
  unfolding count_writes
  count_writes-IsTimed n k e v = elim (Option-cases e.cycle) [
    | inl t ↦ rw (count_writes, t) v
    | inr (c, t) ↦ rw (count_writes, t) v
  ]

  open_structural-IsCalm :
      (setup : Setup) (rec : Record) (t : String) (ts : List String) (w : Pass)
      → InYears rec.timestamp
      → IsCalm m w
      → IsCalm m (open_structural setup rec t ts w)
  unfolding open_structural
  open_structural-IsCalm setup rec t ts w h v = (
    say-CalmLog m enc _ _
        (open_structural_repair-IsTimed (moment setup w.projector) rec t ts w.projector.episodes h
          (v.1.1, v.1.2) v.1.0).1
        (say-CalmLog m enc _ w.log (tt, tt) v.0),
    (
      (open_structural_repair-IsTimed (moment setup w.projector) rec t ts w.projector.episodes h
          (v.1.1, v.1.2) v.1.0).0,
      v.1.1,
      v.1.2,
    ),
  )

  observe_writes-CalmPass :
      (setup : Setup) (rec : Record) (w : Pass)
      → InYears rec.timestamp
      → IsCalm m w
      → CalmPass m (observe_writes setup rec w)
  unfolding observe_writes
  observe_writes-CalmPass setup rec w h v = elim (List-cases (write_targets rec)) [
    | inl n ↦ rw (observe_writes, n) v
    | inr (t, ts, l) ↦ elim (Option-cases w.projector.cycle_writes) [
      | inl n ↦ rw (observe_writes, l, n) tt
      | inr (c, cy) ↦
          let e = count_writes (length (t ∷ ts)) (failed_actions rec) w.projector.episodes in
          let counted : Pass = record w {
            projector = record (w.projector) {
              cycle_writes = some (add_members c (t ∷ ts));
              episodes = e;
            };
          } in
          let v' : IsCalm m counted = (
            v.0,
            (
              count_writes-IsTimed (length (t ∷ ts)) (failed_actions rec) w.projector.episodes
                  v.1.0,
              v.1.1,
              v.1.2,
            ),
          ) in
          elim (List-cases (overlap_of (members w.projector.prior_writes) (t ∷ ts))) [
            | inl n ↦ rw (observe_writes, l, cy, n) v'
            | inr (o, os, ov) ↦
                elim (Bool-cases
                  (is_some w.projector.episodes.active || w.projector.operator_seq == 0)) [
                    | inl b ↦ rw (observe_writes, l, cy, ov, b) v'
                    | inr b ↦
                        rw (observe_writes, l, cy, ov, b)
                          (open_structural-IsCalm setup rec o os counted h v')
                  ]
          ]
    ]
  ]

  project_agent_cycle-IsTimed :
      (seq : ℕ) (res : Result) (e : Episodes)
      → All IsTimed e.repairs
      → All IsTimed (project_agent_cycle seq res e).repairs
  unfolding project_agent_cycle
  project_agent_cycle-IsTimed seq res e v = elim (Option-cases e.cycle) [
    | inl t ↦ rw (project_agent_cycle, t) v
    | inr (c, t) ↦ rw (project_agent_cycle, t) v
  ]

  after-CalmPass :
      (rec : Record) (res : Result) (o : Option Pass)
      → InYears rec.timestamp
      → CalmPass m o
      → CalmPass m (elim o [ none ↦ none | some w' ↦ some (update (project_agent rec res) w') ])
  unfolding project_agent
  after-CalmPass rec res none h v = tt
  after-CalmPass rec res (some w) h v =
      let e = w.projector.episodes in
      (
        v.0,
        (
          attribute-IsTimed rec 0 (project_agent_cycle rec.seq res e) h
              (project_agent_cycle-IsTimed rec.seq res e v.1.0),
          h,
          v.1.2,
        ),
      )

  count_interrupt-IsTimed :
      (e : Episodes) → All IsTimed e.repairs → All IsTimed (count_interrupt e).repairs
  unfolding count_interrupt
  count_interrupt-IsTimed e v = elim (Option-cases e.cycle) [
    | inl t ↦ rw (count_interrupt, t) v
    | inr (c, t) ↦ rw (count_interrupt, t) v
  ]

  count_other_record-IsTimed :
      (n : ℕ) (e : Episodes) → All IsTimed e.repairs → All IsTimed (count_other_record n e).repairs
  unfolding count_other_record
  count_other_record-IsTimed n e v = elim (Option-cases e.cycle) [
    | inl t ↦ rw (count_other_record, t) v
    | inr (c, t) ↦ rw (count_other_record, t) v
  ]

  project_other-IsCalm :
      (rec : Record) (w : Pass)
      → InYears rec.timestamp
      → IsCalm m w
      → IsCalm m (project_other rec w)
  unfolding project_other
  project_other-IsCalm rec w h v =
      let n = failed_actions rec in
      let ended = λ (e : Episodes) (t : All IsTimed e.repairs).
        attribute-IsTimed rec 0 (count_other_record n e) h (count_other_record-IsTimed n e t) in
      let e = w.projector.episodes in
      elim (Bool-cases (same (meta rec "input_mode") "interrupt")) [
        | inl t ↦
            rw (project_other, t)
              (
                say-CalmLog m enc _ w.log (tt, tt) v.0,
                (ended (count_interrupt e) (count_interrupt-IsTimed e v.1.0), v.1.1, v.1.2),
              )
        | inr t ↦ rw (project_other, t) (v.0, (ended e v.1.0, v.1.1, v.1.2))
      ]

  dispatch-CalmPass :
      (setup : Setup) (rec : Record) (obs : Observation) (res : Result) (w : Pass)
      → InYears rec.timestamp
      → IsCalm m w
      → CalmPass m (dispatch setup rec obs res w)
  unfolding dispatch
  dispatch-CalmPass setup rec obs res w h v = elim (Bool-cases (is_operator_turn rec)) [
    | inl t ↦
        rw (dispatch, t)
          (project_operator-IsCalm m enc setup rec obs res (update (start_cycle rec) w) h
            (v.0, (v.1.0, v.1.1, h)))
    | inr t ↦ elim (Bool-cases (is_agent rec.speaker_class)) [
      | inl a ↦
          rw (dispatch, t, a)
            (after-CalmPass rec res (observe_writes setup rec w) h
              (observe_writes-CalmPass setup rec w h v))
      | inr a ↦ rw (dispatch, t, a) (project_other-IsCalm rec w h v)
    ]
  ]

-- A record at a time in its years, on a projector of such times, has no payload refused, and
-- leaves a projector of such times.
pub attempt-CalmPass :
    (setup : Setup) (classify : Input → Answer) (rec : Record) (p : Projector)
    → IsEncoder setup.marshals
    → InYears rec.timestamp
    → TimedProjector p
    → CalmPass setup.marshals (attempt setup classify rec p)
unfolding attempt recorded
attempt-CalmPass setup classify rec p enc h v =
    let rec' = numbered p rec in
    let (p', obs) = recorded setup rec' p in
    let answer = classify (input p' rec') in
    dispatch-CalmPass setup.marshals enc setup rec' obs answer.result
      (observed_pass setup rec' p' obs answer) h
      (observed_pass-IsCalm setup.marshals enc setup rec' p' obs answer refl v)
