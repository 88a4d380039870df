-- ===== src/State/Projector/Stamped.antt =====
-- Every pass of the projector stamps its events apart; internal/state/projector.go.
use flow_indicator.Base.{
  List-cases, ℕ, inl, inr, String, Bool, true, false, Option, none, some, List, ◌∷◌, Option-cases,
  Bool-cases, if◌then◌else◌, is_some, ◌||◌, ◌==◌, same, length,
}
use flow_indicator.Stream.{
  Record, is_operator_turn, is_agent, write_targets, meta, add_members, failed_actions,
}
use flow_indicator.Observe.{Observation}
use flow_indicator.Classify.{Result, Answer, Input}
use flow_indicator.State.Episodes.{count_writes}
use flow_indicator.State.Identity.{IsStamped, say-IsStamped, empty-IsStamped, set_epoch-IsStamped}
use flow_indicator.State.Payloads.{Payload}
use flow_indicator.State.Projector.Defs.{Setup, Projector, Pass, update}
use flow_indicator.State.Projector.Classified.{input}
use flow_indicator.State.Projector.Turn.{
  begin_turn, apply_reset, conclude, settle_previous, project_turn, project_operator,
}
use flow_indicator.State.Projector.Demands.{ObligationTurn, project_obligations}
use flow_indicator.State.Projector.Push.{
  observe_writes, overlap_of, members, open_structural, project_agent, project_other, dispatch,
  attempt, returned, unless, push, start_cycle, numbered, recorded, observed_pass,
}

settle_previous-IsStamped :
    (setup : Setup) (res : Result) (w : Pass)
    → IsStamped setup.marshals w.log
    → IsStamped setup.marshals (settle_previous setup res w).log
unfolding settle_previous
settle_previous-IsStamped setup res w v =
    say-IsStamped _ _ (say-IsStamped _ _ (say-IsStamped _ _ v))

project_turn-IsStamped :
    (setup : Setup) (rec : Record) (obs : Observation) (res : Result) (t : ObligationTurn)
    (w : Pass)
    → IsStamped setup.marshals w.log
    → IsStamped setup.marshals (project_turn setup rec obs res t w).log
unfolding project_turn
project_turn-IsStamped setup rec obs res t w v = say-IsStamped _ _ (say-IsStamped t.out w.log v)

apply_reset-IsStamped :
    {m : Payload → Bool} (rec : Record) (w : Pass)
    → IsStamped m w.log
    → IsStamped m (apply_reset rec w).log
unfolding apply_reset
apply_reset-IsStamped rec w v =
    set_epoch-IsStamped _ _ (say-IsStamped _ _ (say-IsStamped _ _ (say-IsStamped _ _ v)))

either-IsStamped :
    {m : Payload → Bool} (b : Bool) (w w' : Pass)
    → IsStamped m w.log
    → IsStamped m w'.log
    → IsStamped m (if b then w else w').log
either-IsStamped true w w' v v' = v
either-IsStamped false w w' v v' = v'

conclude-IsStamped :
    (setup : Setup) (rec : Record) (obs : Observation) (res : Result) (n : ℕ) (w : Pass)
    → IsStamped setup.marshals w.log
    → IsStamped setup.marshals (conclude setup rec obs res n w).log
unfolding conclude
conclude-IsStamped setup rec obs res n w v = say-IsStamped _ w.log v

project_operator-IsStamped :
    (setup : Setup) (rec : Record) (obs : Observation) (res : Result) (w : Pass)
    → IsStamped setup.marshals w.log
    → IsStamped setup.marshals (project_operator setup rec obs res w).log
unfolding project_operator
project_operator-IsStamped setup rec obs res w v =
    let w₁ = settle_previous setup res (update begin_turn w) in
    let t = project_obligations setup w₁.projector rec res in
    let w₂ = project_turn setup rec obs res t w₁ in
    let v₂ =
      project_turn-IsStamped setup rec obs res t w₁
        (settle_previous-IsStamped setup res (update begin_turn w) v) in
    conclude-IsStamped setup rec obs res (length t.introduced)
      (if res.reset then apply_reset rec w₂ else w₂)
      (either-IsStamped res.reset (apply_reset rec w₂) w₂ (apply_reset-IsStamped rec w₂ v₂) v₂)

-- A pass that does not panic leaves its events stamped apart.
abbrev pub StampedPass : (Payload → Bool) → Option Pass → Type 0
StampedPass m none = Unit
StampedPass m (some w) = IsStamped m w.log

open_structural-IsStamped :
    (setup : Setup) (rec : Record) (t : String) (ts : List String) (w : Pass)
    → IsStamped setup.marshals w.log
    → IsStamped setup.marshals (open_structural setup rec t ts w).log
unfolding open_structural
open_structural-IsStamped setup rec t ts w v = say-IsStamped _ _ (say-IsStamped _ w.log v)

observe_writes-IsStamped :
    (setup : Setup) (rec : Record) (w : Pass)
    → IsStamped setup.marshals w.log
    → StampedPass setup.marshals (observe_writes setup rec w)
unfolding observe_writes
observe_writes-IsStamped setup rec w v = elim (List-cases (write_targets rec)) [
  | inl n ↦ rw (observe_writes, n) v
  | inr (t, ts, l) ↦ elim (Option-cases w.projector.cycle_writes) [
    | inl n ↦ rw (observe_writes, l, n) tt
    | inr (c, cy) ↦ elim (List-cases (overlap_of (members w.projector.prior_writes) (t ∷ ts))) [
      | inl n ↦ rw (observe_writes, l, cy, n) v
      | inr (o, os, ov) ↦
          elim (Bool-cases (is_some w.projector.episodes.active || w.projector.operator_seq == 0)) [
            | inl b ↦ rw (observe_writes, l, cy, ov, b) v
            | inr b ↦
                rw (observe_writes, l, cy, ov, b)
                  (open_structural-IsStamped setup rec o os
                    (record w {
                      projector = record (w.projector) {
                        cycle_writes = some (add_members c (t ∷ ts));
                        episodes =
                            count_writes (length (t ∷ ts)) (failed_actions rec)
                              w.projector.episodes;
                      };
                    })
                    v)
          ]
    ]
  ]
]

project_other-IsStamped :
    {m : Payload → Bool} (rec : Record) (w : Pass)
    → IsStamped m w.log
    → IsStamped m (project_other rec w).log
unfolding project_other
project_other-IsStamped rec w v = elim (Bool-cases (same (meta rec "input_mode") "interrupt")) [
  | inl t ↦ rw (project_other, t) (say-IsStamped _ w.log v)
  | inr t ↦ rw (project_other, t) v
]

after-IsStamped :
    (m : Payload → Bool) (rec : Record) (res : Result) (o : Option Pass)
    → StampedPass m o
    → StampedPass m (elim o [ none ↦ none | some w' ↦ some (update (project_agent rec res) w') ])
after-IsStamped m rec res none v = tt
after-IsStamped m rec res (some w) v = v

dispatch-IsStamped :
    (setup : Setup) (rec : Record) (obs : Observation) (res : Result) (w : Pass)
    → IsStamped setup.marshals w.log
    → StampedPass setup.marshals (dispatch setup rec obs res w)
unfolding dispatch
dispatch-IsStamped setup rec obs res w v = elim (Bool-cases (is_operator_turn rec)) [
  | inl t ↦
      rw (dispatch, t) (project_operator-IsStamped setup rec obs res (update (start_cycle rec) w) v)
  | inr t ↦ elim (Bool-cases (is_agent rec.speaker_class)) [
    | inl a ↦
        rw (dispatch, t, a)
          (after-IsStamped setup.marshals rec res (observe_writes setup rec w)
            (observe_writes-IsStamped setup rec w v))
    | inr a ↦ rw (dispatch, t, a) (project_other-IsStamped rec w v)
  ]
]

unless-IsStamped :
    (m : Payload → Bool) (q : Option Payload) (w : Pass)
    → StampedPass m (some w)
    → StampedPass m (unless q w)
unless-IsStamped m none w v = v
unless-IsStamped m (some x) w v = tt

returned-IsStamped :
    (m : Payload → Bool) (o : Option Pass) → StampedPass m o → StampedPass m (returned o)
returned-IsStamped m none v = v
returned-IsStamped m (some w) v = unless-IsStamped m w.log.panic w v

pub attempt-IsStamped :
    (setup : Setup) (classify : Input → Answer) (rec : Record) (p : Projector)
    → StampedPass setup.marshals (attempt setup classify rec p)
unfolding attempt observed_pass
attempt-IsStamped setup classify rec p =
    let rec' = numbered p rec in
    let (p', obs) = recorded setup rec' p in
    let answer = classify (input p' rec') in
    dispatch-IsStamped setup rec' obs answer.result (observed_pass setup rec' p' obs answer)
      (say-IsStamped _ _ (empty-IsStamped _ _))

-- If `Push` does not panic, the events it returned have pairwise different ids: no two share a
-- stream, record, kind, ordinal and version, and all carry the same record number.
pub push-IsStamped :
    (setup : Setup) (classify : Input → Answer) (rec : Record) (p : Projector)
    → StampedPass setup.marshals (push setup classify rec p)
unfolding push
push-IsStamped setup classify rec p =
    returned-IsStamped setup.marshals (attempt setup classify rec p)
      (attempt-IsStamped setup classify rec p)
