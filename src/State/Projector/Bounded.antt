-- ===== src/State/Projector/Bounded.antt =====
-- The rolling lists stay within the window of the configuration; internal/state/projector.go.
use flow_indicator.Base.{
  ℕ, ◌≤◌, ◌≡◌, ◌∙◌, refl, sym, subst, inl, inr, String, Bool, true, false, Option, none, some, List,
  [], ◌∷◌, arith, Option-cases, Bool-cases, List-cases, if◌then◌else◌, is_some, ◌||◌, ◌&&◌, ◌==◌,
  same, not, length, length-push_bounded-le,
}
use flow_indicator.Stream.{Record, is_operator_turn, is_agent, write_targets, meta}
use flow_indicator.Observe.{Observation}
use flow_indicator.Classify.{Result, Answer, Input}
use flow_indicator.State.Episodes.{attribute, project_repair}
use flow_indicator.State.Pointers.{Pointers}
use flow_indicator.State.Pointers.Baseline.{
  IsBounded, add_baseline-IsBounded, resolve_pointers-IsBounded,
}
use flow_indicator.State.Payloads.{Payload}
use flow_indicator.State.Projector.Defs.{
  Setup, Projector, Pass, Rolling, moment, new_projector, update, clear_rolling,
}
use flow_indicator.State.Projector.Classified.{input}
use flow_indicator.State.Projector.Demands.{ObligationTurn, project_obligations}
use flow_indicator.State.Projector.Turn.{
  begin_turn, mark_repeats, remember, apply_reset, join_control, conclude, settle_previous,
  project_turn, project_operator, baseline_eligible,
}
use flow_indicator.State.Projector.Push.{
  observe_writes, overlap_of, members, open_structural, project_agent, project_other, dispatch,
  attempt, returned, unless, push, run, start_cycle, numbered, recorded, observed_pass,
}

-- The baseline, the window of turns and the prior texts hold at most `n` entries each.
pub record IsWithin (n : ℕ) (q : Pointers) (r : Rolling) : Type 0 where
  pub baseline : IsBounded n q
  pub window : length r.window ≤ n
  pub prior : length r.prior_operator_text ≤ n

abbrev pub IsWithinWindow : Setup → Projector → Type 0
IsWithinWindow setup p = IsWithin setup.config.window.rolling_turns p.pointers p.rolling

begin_turn-IsWithinWindow :
    (setup : Setup) (p : Projector) → IsWithinWindow setup p → IsWithinWindow setup (begin_turn p)
unfolding begin_turn clear_rolling
begin_turn-IsWithinWindow setup p v = elim (Bool-cases p.reset_pending) [
  | inl t ↦ record { baseline = ground arith; window = ground arith; prior = ground arith }
  | inr t ↦ record {
    baseline = ground (arith, v.baseline);
    window = ground (arith, v.window);
    prior = ground (arith, v.prior);
  }
]

settle_previous-IsWithinWindow :
    (setup : Setup) (res : Result) (w : Pass)
    → IsWithinWindow setup w.projector
    → IsWithinWindow setup (settle_previous setup res w).projector
unfolding settle_previous
settle_previous-IsWithinWindow setup res w v = record {
  baseline =
      (resolve_pointers-IsBounded setup.config.window.rolling_turns w.projector.last_agent_seq
        w.projector.turn_index res w.projector.pointers v.baseline).0;
  window = v.window;
  prior = v.prior;
}

mark_repeats-IsWithinWindow :
    (setup : Setup) (is : List ℕ) (p : Projector)
    → IsWithinWindow setup p
    → IsWithinWindow setup (mark_repeats is p)
unfolding mark_repeats
mark_repeats-IsWithinWindow setup [] p v = v
mark_repeats-IsWithinWindow setup (i ∷ is) p v = record {
  baseline = v.baseline;
  window = v.window;
  prior = v.prior;
}

remember-IsWithinWindow :
    (setup : Setup) (rec : Record) (obs : Observation) (res : Result) (p : Projector)
    → IsWithinWindow setup p
    → IsWithinWindow setup (remember setup rec obs res p)
unfolding remember
remember-IsWithinWindow setup rec obs res p v = record {
  baseline = elim (Bool-cases res.pointer.is_pointer) [
    | inl t ↦ rw (remember, t) v.baseline
    | inr t ↦ rw (remember, t) v.baseline
  ];
  window = length-push_bounded-le setup.config.window.rolling_turns _ _;
  prior = length-push_bounded-le setup.config.window.rolling_turns _ _;
}

project_turn-IsWithinWindow :
    (setup : Setup) (rec : Record) (obs : Observation) (res : Result) (t : ObligationTurn)
    (w : Pass)
    → IsWithinWindow setup w.projector
    → IsWithinWindow setup (project_turn setup rec obs res t w).projector
unfolding project_turn
project_turn-IsWithinWindow setup rec obs res t w v =
    let p₁ : Projector = record (w.projector) { obligations = t.obligations } in
    let q = mark_repeats t.repeated p₁ in
    let e = attribute rec obs.chars (project_repair (moment setup q) rec res q.episodes).0 in
    remember-IsWithinWindow setup rec obs res (record q { episodes = e })
      (mark_repeats-IsWithinWindow setup t.repeated p₁ v)

either-IsWithinWindow :
    (setup : Setup) (b : Bool) (w w' : Pass)
    → IsWithinWindow setup w.projector
    → IsWithinWindow setup w'.projector
    → IsWithinWindow setup (if b then w else w').projector
either-IsWithinWindow setup true w w' v v' = v
either-IsWithinWindow setup false w w' v v' = v'

apply_reset-IsWithinWindow :
    (setup : Setup) (rec : Record) (w : Pass)
    → IsWithinWindow setup w.projector
    → IsWithinWindow setup (apply_reset rec w).projector
unfolding apply_reset
apply_reset-IsWithinWindow setup rec w v = record {
  baseline = v.baseline;
  window = v.window;
  prior = v.prior;
}

conclude-IsWithinWindow :
    (setup : Setup) (rec : Record) (obs : Observation) (res : Result) (n : ℕ) (w : Pass)
    → IsWithinWindow setup w.projector
    → IsWithinWindow setup (conclude setup rec obs res n w).projector
unfolding conclude join_control
conclude-IsWithinWindow setup rec obs res n w v =
    elim (Bool-cases (not res.pointer.is_pointer && baseline_eligible w.projector res)) [
      | inl t ↦
          rw (conclude, t)
            (record {
              baseline =
                  add_baseline-IsBounded setup.config.window.rolling_turns obs.chars
                    w.projector.pointers;
              window = v.window;
              prior = v.prior;
            })
      | inr t ↦
          rw (conclude, t) (record { baseline = v.baseline; window = v.window; prior = v.prior })
    ]

project_operator-IsWithinWindow :
    (setup : Setup) (rec : Record) (obs : Observation) (res : Result) (w : Pass)
    → IsWithinWindow setup w.projector
    → IsWithinWindow setup (project_operator setup rec obs res w).projector
unfolding project_operator
project_operator-IsWithinWindow setup rec obs res w v =
    let w₁ = settle_previous setup res (update begin_turn w) in
    let v₁ =
      settle_previous-IsWithinWindow setup res (update begin_turn w)
        (begin_turn-IsWithinWindow setup w.projector v) in
    let t = project_obligations setup w₁.projector rec res in
    let w₂ = project_turn setup rec obs res t w₁ in
    let v₂ = project_turn-IsWithinWindow setup rec obs res t w₁ v₁ in
    conclude-IsWithinWindow setup rec obs res (length t.introduced)
      (if res.reset then apply_reset rec w₂ else w₂)
      (either-IsWithinWindow setup res.reset (apply_reset rec w₂) w₂
        (apply_reset-IsWithinWindow setup rec w₂ v₂) v₂)

-- What a pass leaves is within the window, if it does not panic.
abbrev pub WithinPass : Setup → Option Pass → Type 0
WithinPass setup none = Unit
WithinPass setup (some w) = IsWithinWindow setup w.projector

observe_writes-WithinPass :
    (setup : Setup) (rec : Record) (w : Pass)
    → IsWithinWindow setup w.projector
    → WithinPass setup (observe_writes setup rec w)
unfolding observe_writes open_structural
observe_writes-WithinPass setup rec w v = elim (List-cases (write_targets rec)) [
  | inl n ↦ rw (observe_writes, n) v
  | inr (t, ts, l) ↦ elim (Option-cases w.projector.cycle_writes) [
    | inl n ↦ rw (observe_writes, l, n) tt
    | inr (c, cy) ↦ elim (List-cases (overlap_of (members w.projector.prior_writes) (t ∷ ts))) [
      | inl n ↦
          rw (observe_writes, l, cy, n)
            (record { baseline = v.baseline; window = v.window; prior = v.prior })
      | inr (o, os, ov) ↦
          elim (Bool-cases (is_some w.projector.episodes.active || w.projector.operator_seq == 0)) [
            | inl b ↦
                rw (observe_writes, l, cy, ov, b)
                  (record { baseline = v.baseline; window = v.window; prior = v.prior })
            | inr b ↦
                rw (observe_writes, l, cy, ov, b)
                  (record { baseline = v.baseline; window = v.window; prior = v.prior })
          ]
    ]
  ]
]

project_other-IsWithinWindow :
    (setup : Setup) (rec : Record) (w : Pass)
    → IsWithinWindow setup w.projector
    → IsWithinWindow setup (project_other rec w).projector
unfolding project_other
project_other-IsWithinWindow setup rec w v =
    elim (Bool-cases (same (meta rec "input_mode") "interrupt")) [
      | inl t ↦
          rw (project_other, t)
            (record { baseline = v.baseline; window = v.window; prior = v.prior })
      | inr t ↦
          rw (project_other, t)
            (record { baseline = v.baseline; window = v.window; prior = v.prior })
    ]

after-WithinPass :
    (setup : Setup) (rec : Record) (res : Result) (o : Option Pass)
    → WithinPass setup o
    → WithinPass setup (elim o [ none ↦ none | some w' ↦ some (update (project_agent rec res) w') ])
unfolding project_agent
after-WithinPass setup rec res none v = tt
after-WithinPass setup rec res (some w) v = v

dispatch-WithinPass :
    (setup : Setup) (rec : Record) (obs : Observation) (res : Result) (w : Pass)
    → IsWithinWindow setup w.projector
    → WithinPass setup (dispatch setup rec obs res w)
unfolding dispatch
dispatch-WithinPass setup rec obs res w v = elim (Bool-cases (is_operator_turn rec)) [
  | inl t ↦
      rw (dispatch, t)
        (project_operator-IsWithinWindow setup rec obs res (update (start_cycle rec) w) v)
  | inr t ↦ elim (Bool-cases (is_agent rec.speaker_class)) [
    | inl a ↦
        rw (dispatch, t, a)
          (after-WithinPass setup rec res (observe_writes setup rec w)
            (observe_writes-WithinPass setup rec w v))
    | inr a ↦ rw (dispatch, t, a) (project_other-IsWithinWindow setup rec w v)
  ]
]

attempt-WithinPass :
    (setup : Setup) (classify : Input → Answer) (rec : Record) (p : Projector)
    → IsWithinWindow setup p
    → WithinPass setup (attempt setup classify rec p)
unfolding attempt recorded observed_pass
attempt-WithinPass setup classify rec p v =
    let rec' = numbered p rec in
    let (p', obs) = recorded setup rec' p in
    let answer = classify (input p' rec') in
    dispatch-WithinPass setup rec' obs answer.result (observed_pass setup rec' p' obs answer) v

unless-WithinPass :
    (setup : Setup) (q : Option Payload) (w : Pass)
    → WithinPass setup (some w)
    → WithinPass setup (unless q w)
unless-WithinPass setup none w v = v
unless-WithinPass setup (some x) w v = tt

returned-WithinPass :
    (setup : Setup) (o : Option Pass) → WithinPass setup o → WithinPass setup (returned o)
returned-WithinPass setup none v = v
returned-WithinPass setup (some w) v = unless-WithinPass setup w.log.panic w v

pub push-WithinPass :
    (setup : Setup) (classify : Input → Answer) (rec : Record) (p : Projector)
    → IsWithinWindow setup p
    → WithinPass setup (push setup classify rec p)
unfolding push
push-WithinPass setup classify rec p v =
    returned-WithinPass setup (attempt setup classify rec p)
      (attempt-WithinPass setup classify rec p v)

run_from-IsWithinWindow :
    (setup : Setup) (rs : List ((Input → Answer) × Record)) (p q : Projector)
    → IsWithinWindow setup p
    → run setup rs p ≡ some q
    → IsWithinWindow setup q
unfolding run
run_from-IsWithinWindow setup [] p q v h = let e : p ≡ q = cc in rw (← e) v
run_from-IsWithinWindow setup ((classify, rec) ∷ rs) p q v h =
    elim (Option-cases (push setup classify rec p)) [
      | inl n ↦ let e : run setup ((classify, rec) ∷ rs) p ≡ none = rw (run, n) refl in cc
      | inr (w, s) ↦
          let e : run setup ((classify, rec) ∷ rs) p ≡ run setup rs w.projector =
            rw (run, s) refl in
          let v' : WithinPass setup (push setup classify rec p) =
            push-WithinPass setup classify rec p v in
          run_from-IsWithinWindow setup rs w.projector q (subst (WithinPass setup) s v') (sym e ∙ h)
    ]

-- In the state that any stream leads a new projector to, the control baseline, the window of
-- turns and the prior texts hold at most the configured number of rolling turns each.
pub run-IsWithinWindow :
    (setup : Setup) (s : String) (rs : List ((Input → Answer) × Record)) (q : Projector)
    → run setup rs (new_projector setup s) ≡ some q
    → IsWithinWindow setup q
unfolding new_projector
run-IsWithinWindow setup s rs q h =
    run_from-IsWithinWindow setup rs (new_projector setup s) q
      (record { baseline = omega arith; window = omega arith; prior = omega arith }) h
