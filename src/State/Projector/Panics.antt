-- ===== src/State/Projector/Panics.antt =====
-- When `Push` panics: the write into the nil map `cycleWrites` of `observeWrites`, and a payload
-- that `Emit` cannot marshal;
-- internal/state/projector.go.
pub mod Total
use flow_indicator.Base.{
  List-cases, ℕ, ap, ◌≡◌, refl, ◌∙◌, inl, inr, String, Bool, true, false, Option, none, some, List,
  [], ◌∷◌, arith, Option-cases, Bool-cases, if◌then◌else◌, is_some, is_none, ◌||◌, ◌&&◌, ◌==◌, not,
  length, same, All,
}
use flow_indicator.Stream.{Record, is_operator_turn, is_agent, write_targets, meta}
use flow_indicator.Observe.{Observation}
use flow_indicator.Classify.{Result, Answer, Input}
use flow_indicator.State.Projector.Defs.{
  Setup, Projector, Pass, new_projector, update, clear_rolling,
}
use flow_indicator.State.Projector.Turn.{
  begin_turn, mark_repeats, remember, apply_reset, join_control, conclude, settle_previous,
  project_turn, project_operator, baseline_eligible,
}
use flow_indicator.State.Projector.Demands.{ObligationTurn, project_obligations}
use flow_indicator.State.Projector.Classified.{input}
use flow_indicator.State.Projector.Push.{
  observe_writes, overlap_of, members, open_structural, project_agent, project_other, dispatch,
  attempt, run, numbered, start_cycle, recorded, observed_pass,
}
use flow_indicator.State.Payloads.{Payload}
use flow_indicator.State.Times.{InYears, zero-InYears, IsEncoder}
use flow_indicator.State.Times.Passes.{TimedProjector}
use flow_indicator.State.Times.Records.{CalmPass, attempt-CalmPass}

abbrev some_writes : List String → Bool
some_writes [] = false
some_writes (t ∷ ts) = true

-- Does the record write, from an agent, before the first operator turn?
abbrev pub writes_too_early : Projector → Record → Bool
writes_too_early p rec =
    not (is_operator_turn rec)
    && is_agent rec.speaker_class
    && is_none p.cycle_writes
    && some_writes (write_targets rec)

begin_turn-writes : (p : Projector) → (begin_turn p).cycle_writes ≡ p.cycle_writes
unfolding begin_turn clear_rolling
begin_turn-writes p = elim (Bool-cases p.reset_pending) [
  | inl t ↦ ground arith
  | inr t ↦ ground arith
]

mark_repeats-writes :
    (is : List ℕ) (p : Projector) → (mark_repeats is p).cycle_writes ≡ p.cycle_writes
unfolding mark_repeats
mark_repeats-writes [] p = refl
mark_repeats-writes (i ∷ is) p = refl

join_control-writes :
    (setup : Setup) (obs : Observation) (res : Result) (p : Projector)
    → (join_control setup obs res p).cycle_writes ≡ p.cycle_writes
unfolding join_control
join_control-writes setup obs res p =
    elim (Bool-cases (not res.pointer.is_pointer && baseline_eligible p res)) [
      | inl t ↦ ground arith
      | inr t ↦ ground arith
    ]

either-writes :
    (b : Bool) (w w' : Pass)
    → w.projector.cycle_writes ≡ w'.projector.cycle_writes
    → (if b then w else w').projector.cycle_writes ≡ w'.projector.cycle_writes
either-writes true w w' e = e
either-writes false w w' e = refl

apply_reset-writes :
    (rec : Record) (w : Pass)
    → (apply_reset rec w).projector.cycle_writes ≡ w.projector.cycle_writes
unfolding apply_reset
apply_reset-writes rec w = refl

project_turn-writes :
    (setup : Setup) (rec : Record) (obs : Observation) (res : Result) (t : ObligationTurn)
    (w : Pass)
    → (project_turn setup rec obs res t w).projector.cycle_writes ≡ w.projector.cycle_writes
unfolding project_turn remember
project_turn-writes setup rec obs res t w =
    mark_repeats-writes t.repeated (record (w.projector) { obligations = t.obligations })

settle_previous-writes :
    (setup : Setup) (res : Result) (w : Pass)
    → (settle_previous setup res w).projector.cycle_writes ≡ w.projector.cycle_writes
unfolding settle_previous
settle_previous-writes setup res w = refl

conclude-writes :
    (setup : Setup) (rec : Record) (obs : Observation) (res : Result) (n : ℕ) (w : Pass)
    → (conclude setup rec obs res n w).projector.cycle_writes ≡ w.projector.cycle_writes
unfolding conclude
conclude-writes setup rec obs res n w = join_control-writes setup obs res w.projector

project_operator-writes :
    (setup : Setup) (rec : Record) (obs : Observation) (res : Result) (w : Pass)
    → (project_operator setup rec obs res w).projector.cycle_writes ≡ w.projector.cycle_writes
unfolding project_operator
project_operator-writes setup rec obs res w =
    let w₁ = settle_previous setup res (update begin_turn w) in
    let t = project_obligations setup w₁.projector rec res in
    let w₂ = project_turn setup rec obs res t w₁ in
    conclude-writes setup rec obs res (length t.introduced)
      (if res.reset then apply_reset rec w₂ else w₂)
    ∙ either-writes res.reset (apply_reset rec w₂) w₂ (apply_reset-writes rec w₂)
    ∙ project_turn-writes setup rec obs res t w₁
    ∙ settle_previous-writes setup res (update begin_turn w)
    ∙ begin_turn-writes w.projector

project_other-writes :
    (rec : Record) (w : Pass)
    → (project_other rec w).projector.cycle_writes ≡ w.projector.cycle_writes
unfolding project_other
project_other-writes rec w = elim (Bool-cases (same (meta rec "input_mode") "interrupt")) [
  | inl t ↦ rw t refl
  | inr t ↦ rw t refl
]

-- A pass gives `none`, or a projector whose map is there if it was or if the record is a turn.
abbrev Written : Bool → Bool → Option Pass → Type 0
Written early there none = early ≡ true
Written early there (some w) =
    (early ≡ false) × (there ≡ true → is_some w.projector.cycle_writes ≡ true)

observe_writes-Written :
    (setup : Setup) (rec : Record) (w : Pass)
    → Written
        (is_none w.projector.cycle_writes && some_writes (write_targets rec))
        (is_some w.projector.cycle_writes)
        (observe_writes setup rec w)
unfolding observe_writes open_structural
observe_writes-Written setup rec w = elim (List-cases (write_targets rec)) [
  | inl n ↦ elim (Option-cases w.projector.cycle_writes) [
    | inl m ↦ rw (observe_writes, n, m) (refl, λ h. h)
    | inr (c, cy) ↦ rw (observe_writes, n, cy) (refl, λ h. h)
  ]
  | inr (t, ts, l) ↦ elim (Option-cases w.projector.cycle_writes) [
    | inl n ↦ rw (observe_writes, l, n) refl
    | inr (c, cy) ↦ elim (List-cases (overlap_of (members w.projector.prior_writes) (t ∷ ts))) [
      | inl n ↦ rw (observe_writes, l, cy, n) (refl, λ h. refl)
      | inr (o, os, ov) ↦
          elim (Bool-cases (is_some w.projector.episodes.active || w.projector.operator_seq == 0)) [
            | inl b ↦ rw (observe_writes, l, cy, ov, b) (refl, λ h. refl)
            | inr b ↦ rw (observe_writes, l, cy, ov, b) (refl, λ h. refl)
          ]
    ]
  ]
]

after-Written :
    (early there : Bool) (rec : Record) (res : Result) (o : Option Pass)
    → Written early there o
    → Written early there
        (elim o [ none ↦ none | some w' ↦ some (update (project_agent rec res) w') ])
unfolding project_agent
after-Written early there rec res none v = v
after-Written early there rec res (some w) v = v

dispatch-Written :
    (setup : Setup) (rec : Record) (obs : Observation) (res : Result) (w : Pass)
    → Written
        (writes_too_early w.projector rec)
        (is_operator_turn rec || is_some w.projector.cycle_writes)
        (dispatch setup rec obs res w)
unfolding dispatch
dispatch-Written setup rec obs res w = elim (Bool-cases (is_operator_turn rec)) [
  | inl t ↦
      rw (dispatch, t)
        (
          refl,
          λ h. rw (project_operator-writes setup rec obs res (update (start_cycle rec) w)) refl,
        )
  | inr t ↦ elim (Bool-cases (is_agent rec.speaker_class)) [
    | inl a ↦
        rw (dispatch, t, a)
          (after-Written _ _ rec res (observe_writes setup rec w)
            (observe_writes-Written setup rec w))
    | inr a ↦ rw (dispatch, t, a) (refl, λ h. rw (project_other-writes rec w) h)
  ]
]

attempt-Written :
    (setup : Setup) (classify : Input → Answer) (rec : Record) (p : Projector)
    → Written
        (writes_too_early p rec)
        (is_operator_turn rec || is_some p.cycle_writes)
        (attempt setup classify rec p)
unfolding attempt recorded observed_pass is_operator_turn write_targets
attempt-Written setup classify rec p =
    let rec' = numbered p rec in
    let (p', obs) = recorded setup rec' p in
    let answer = classify (input p' rec') in
    dispatch-Written setup rec' obs answer.result (observed_pass setup rec' p' obs answer)

-- `Emit` panicked on a payload that json.Marshal refuses.
abbrev pub IsRefused : Setup → Option Pass → Type 0
IsRefused setup o =
    (w : Pass) × (x : Payload) × (o ≡ some w) × (w.log.panic ≡ some x) × (setup.marshals x ≡ false)
