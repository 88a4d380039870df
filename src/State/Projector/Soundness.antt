-- ===== src/State/Projector/Soundness.antt =====
-- `Push`, `Finish` and a whole stream: what they keep, and when `Push` panics;
-- internal/state/projector.go.
use flow_indicator.Base.{
  List-cases, ℕ, ◌≡◌, subst, get_elem?, refl, sym, ◌∙◌, inl, inr, String, Bool, true, false, Option,
  none, some, List, [], ◌∷◌, arith, Option-cases, Bool-cases, is_some, ◌||◌, ◌==◌, same,
}
use flow_indicator.Stream.{Record, is_operator_turn, is_agent, write_targets, failed_actions, meta}
use flow_indicator.Observe.{Observation}
use flow_indicator.Classify.{expansions, Result, Answer, Input}
use flow_indicator.State.Episodes.{
  Episodes, project_agent_cycle, count_interrupt, count_other_record, count_writes,
}
use flow_indicator.State.Obligations.{Obligation, stands}
use flow_indicator.State.Obligations.Lifecycle.{one_standing_per_key}
use flow_indicator.State.Episodes.Invariant.{IsConsistent}
use flow_indicator.State.Episodes.Preserve.{
  attribute-IsConsistent, cycle-IsConsistent, settle_pollution-IsConsistent,
}
use flow_indicator.State.Episodes.Closing.{finish_active-IsConsistent}
use flow_indicator.State.Episodes.Reopening.{open_structural_repair-IsConsistent}
use flow_indicator.State.Payloads.{Payload}
use flow_indicator.State.Projector.Defs.{Setup, Projector, Pass, new_projector, moment, update}
use flow_indicator.State.Projector.Classified.{input}
use flow_indicator.State.Projector.Push.{
  observe_writes, overlap_of, members, open_structural, project_agent, project_other, dispatch,
  attempt, returned, unless, push, finish, run, numbered, start_cycle, recorded, observed_pass,
}
use flow_indicator.State.Projector.Invariant.{
  IsSound, new_projector-IsSound, project_operator-IsSound,
}

pub project_agent_cycle-IsConsistent :
    (seq : ℕ) (res : Result) (e : Episodes)
    → IsConsistent e
    → IsConsistent (project_agent_cycle seq res e)
unfolding project_agent_cycle expansions
project_agent_cycle-IsConsistent seq res e v = elim (Option-cases e.cycle) [
  | inl n ↦ let eq : project_agent_cycle seq res e ≡ e = rw n refl in rw eq v
  | inr (c, cy) ↦
      rw (project_agent_cycle, cy)
        (cycle-IsConsistent _ e (λ x h. ground (arith, v.cycle_in c cy)) v)
]

count_interrupt-IsConsistent : (e : Episodes) → IsConsistent e → IsConsistent (count_interrupt e)
unfolding count_interrupt
count_interrupt-IsConsistent e v = elim (Option-cases e.cycle) [
  | inl n ↦ let eq : count_interrupt e ≡ e = rw n refl in rw eq v
  | inr (c, cy) ↦
      rw (count_interrupt, cy) (cycle-IsConsistent _ e (λ x h. ground (arith, v.cycle_in c cy)) v)
]

count_other_record-IsConsistent :
    (failed : ℕ) (e : Episodes) → IsConsistent e → IsConsistent (count_other_record failed e)
unfolding count_other_record
count_other_record-IsConsistent failed e v = elim (Option-cases e.cycle) [
  | inl n ↦ let eq : count_other_record failed e ≡ e = rw n refl in rw eq v
  | inr (c, cy) ↦
      rw (count_other_record, cy)
        (cycle-IsConsistent _ e (λ x h. ground (arith, v.cycle_in c cy)) v)
]

count_writes-IsConsistent :
    (n failed : ℕ) (e : Episodes) → IsConsistent e → IsConsistent (count_writes n failed e)
unfolding count_writes
count_writes-IsConsistent n failed e v = elim (Option-cases e.cycle) [
  | inl z ↦ let eq : count_writes n failed e ≡ e = rw z refl in rw eq v
  | inr (c, cy) ↦
      rw (count_writes, cy) (cycle-IsConsistent _ e (λ x h. ground (arith, v.cycle_in c cy)) v)
]

count_writes-active : (n failed : ℕ) (e : Episodes) → (count_writes n failed e).active ≡ e.active
unfolding count_writes
count_writes-active n failed e = elim (Option-cases e.cycle) [
  | inl z ↦ ground arith
  | inr (c, cy) ↦ ground arith
]

-- What a pass leaves is sound, if it does not panic.
abbrev pub IsSoundPass : Option Pass → Type 0
IsSoundPass none = Unit
IsSoundPass (some w) = IsSound w.projector

not_some : {A : Type 0} (o : Option A) (b : Bool) → (is_some o || b) ≡ false → o ≡ none
not_some none b h = refl
not_some (some a) b h = cc

observe_writes-IsSound :
    (setup : Setup) (rec : Record) (w : Pass)
    → IsSound w.projector
    → IsSoundPass (observe_writes setup rec w)
unfolding observe_writes open_structural
observe_writes-IsSound setup rec w v =
    let counted =
      λ (n : ℕ). count_writes-IsConsistent n (failed_actions rec) w.projector.episodes v.episodes in
    elim (List-cases (write_targets rec)) [
      | inl n ↦ rw (observe_writes, n) v
      | inr (t, ts, l) ↦ elim (Option-cases w.projector.cycle_writes) [
        | inl n ↦ rw (observe_writes, l, n) tt
        | inr (c, cy) ↦ elim (List-cases (overlap_of (members w.projector.prior_writes) (t ∷ ts))) [
          | inl n ↦
              rw (observe_writes, l, cy, n)
                (record { obligations = v.obligations; episodes = counted _ })
          | inr (o, os, ov) ↦
              elim (Bool-cases
                (is_some w.projector.episodes.active || w.projector.operator_seq == 0)) [
                  | inl b ↦
                      rw (observe_writes, l, cy, ov, b)
                        (record { obligations = v.obligations; episodes = counted _ })
                  | inr b ↦
                      let n =
                        not_some w.projector.episodes.active (w.projector.operator_seq == 0) b in
                      rw (observe_writes, l, cy, ov, b)
                        (record {
                          obligations = v.obligations;
                          episodes =
                              open_structural_repair-IsConsistent (moment setup w.projector) rec o
                                os _ (count_writes-active _ _ w.projector.episodes ∙ n) (counted _);
                        })
                ]
        ]
      ]
    ]

project_agent-IsSound :
    (rec : Record) (res : Result) (p : Projector) → IsSound p → IsSound (project_agent rec res p)
unfolding project_agent
project_agent-IsSound rec res p v = record {
  obligations = v.obligations;
  episodes =
      attribute-IsConsistent rec 0 _
        (project_agent_cycle-IsConsistent rec.seq res p.episodes v.episodes);
}

project_other-IsSound :
    (rec : Record) (w : Pass) → IsSound w.projector → IsSound (project_other rec w).projector
unfolding project_other
project_other-IsSound rec w v =
    let ends = λ (e : Episodes) (c : IsConsistent e).
      attribute-IsConsistent rec 0 _ (count_other_record-IsConsistent (failed_actions rec) e c) in
    elim (Bool-cases (same (meta rec "input_mode") "interrupt")) [
      | inl t ↦
          rw (project_other, t)
            (record {
              obligations = v.obligations;
              episodes = ends _ (count_interrupt-IsConsistent w.projector.episodes v.episodes);
            })
      | inr t ↦
          rw (project_other, t)
            (record { obligations = v.obligations; episodes = ends _ v.episodes })
    ]

after-IsSound :
    (rec : Record) (res : Result) (o : Option Pass)
    → IsSoundPass o
    → IsSoundPass (elim o [
      | none ↦ none
      | some w' ↦ some (record w' { projector = project_agent rec res w'.projector })
    ])
after-IsSound rec res none v = tt
after-IsSound rec res (some w) v = project_agent-IsSound rec res w.projector v

dispatch-IsSound :
    (setup : Setup) (rec : Record) (obs : Observation) (res : Result) (w : Pass)
    → IsSound w.projector
    → IsSoundPass (dispatch setup rec obs res w)
unfolding dispatch
dispatch-IsSound setup rec obs res w v = elim (Bool-cases (is_operator_turn rec)) [
  | inl t ↦
      rw (dispatch, t)
        (project_operator-IsSound setup rec obs res (update (start_cycle rec) w)
          (record { obligations = v.obligations; episodes = v.episodes }))
  | inr t ↦ elim (Bool-cases (is_agent rec.speaker_class)) [
    | inl a ↦
        rw (dispatch, t, a)
          (after-IsSound rec res (observe_writes setup rec w)
            (observe_writes-IsSound setup rec w v))
    | inr a ↦ rw (dispatch, t, a) (project_other-IsSound rec w v)
  ]
]

attempt-IsSound :
    (setup : Setup) (classify : Input → Answer) (rec : Record) (p : Projector)
    → IsSound p
    → IsSoundPass (attempt setup classify rec p)
unfolding attempt recorded observed_pass
attempt-IsSound setup classify rec p v =
    let rec' = numbered p rec in
    let (p', obs) = recorded setup rec' p in
    let answer = classify (input p' rec') in
    dispatch-IsSound setup rec' obs answer.result (observed_pass setup rec' p' obs answer)
      (record { obligations = v.obligations; episodes = v.episodes })

unless-IsSound : (q : Option Payload) (w : Pass) → IsSoundPass (some w) → IsSoundPass (unless q w)
unless-IsSound none w v = v
unless-IsSound (some x) w v = tt

returned-IsSound : (o : Option Pass) → IsSoundPass o → IsSoundPass (returned o)
returned-IsSound none v = v
returned-IsSound (some w) v = unless-IsSound w.log.panic w v

-- A record that does not make `Push` panic keeps a sound projector sound.
pub push-IsSound :
    (setup : Setup) (classify : Input → Answer) (rec : Record) (p : Projector)
    → IsSound p
    → IsSoundPass (push setup classify rec p)
unfolding push
push-IsSound setup classify rec p v =
    returned-IsSound (attempt setup classify rec p) (attempt-IsSound setup classify rec p v)

-- The end of the source keeps a sound projector sound.
pub finish-IsSound :
    (setup : Setup) (p : Projector) → IsSound p → IsSound (finish setup p).projector
unfolding finish
finish-IsSound setup p v = record {
  obligations = v.obligations;
  episodes =
      finish_active-IsConsistent _ (settle_pollution-IsConsistent false p.episodes v.episodes);
}

run_from-IsSound :
    (setup : Setup) (rs : List ((Input → Answer) × Record)) (p q : Projector)
    → IsSound p
    → run setup rs p ≡ some q
    → IsSound q
unfolding run
run_from-IsSound setup [] p q v h = let e : p ≡ q = cc in rw (← e) v
run_from-IsSound setup ((classify, rec) ∷ rs) p q v h =
    elim (Option-cases (push setup classify rec p)) [
      | inl n ↦ let e : run setup ((classify, rec) ∷ rs) p ≡ none = rw (run, n) refl in cc
      | inr (w, s) ↦
          let e : run setup ((classify, rec) ∷ rs) p ≡ run setup rs w.projector =
            rw (run, s) refl in
          let v' : IsSoundPass (push setup classify rec p) = push-IsSound setup classify rec p v in
          run_from-IsSound setup rs w.projector q (subst IsSoundPass s v') (sym e ∙ h)
    ]

-- A new projector that takes any stream of records, whatever the classifier answers at each, and
-- does not panic, ends with a well-formed obligation surface and consistent episodes: numbered in
-- order, indexed, one open episode at most, and `closing` exactly the provisional ones.
pub run-IsSound :
    (setup : Setup) (s : String) (rs : List ((Input → Answer) × Record)) (q : Projector)
    → run setup rs (new_projector setup s) ≡ some q
    → IsSound q
run-IsSound setup s rs q h =
    run_from-IsSound setup rs (new_projector setup s) q (new_projector-IsSound setup s) h

-- In the state that any stream leads a new projector to, two obligations that stand, unresolved
-- or violated, and have the same key are the same obligation.
pub run_one_standing :
    (setup : Setup) (s : String) (rs : List ((Input → Answer) × Record)) (q : Projector) (i j : ℕ)
    (a b : Obligation)
    → run setup rs (new_projector setup s) ≡ some q
    → get_elem? q.obligations.order i ≡ some a
    → get_elem? q.obligations.order j ≡ some b
    → stands a.status ≡ true
    → stands b.status ≡ true
    → a.key ≡ b.key
    → i ≡ j
run_one_standing setup s rs q i j a b h ha hb sa sb e =
    one_standing_per_key q.obligations i j a b (run-IsSound setup s rs q h).obligations ha hb sa sb
      e
