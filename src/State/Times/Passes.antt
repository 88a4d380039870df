-- ===== src/State/Times/Passes.antt =====
-- A pass over times in their years never stops in `Emit`; internal/state/projector.go.
use flow_indicator.Base.{
  ℕ, ◌≡◌, ap, ◌∙◌, inl, inr, Bool, true, false, none, List, [], ◌∷◌, Bool-cases, if◌then◌else◌,
  ◌&&◌, not, length, All,
}
use flow_indicator.Stream.{Record}
use flow_indicator.Observe.{Observation}
use flow_indicator.Classify.{Result}
use flow_indicator.State.Pointers.{Pointers, Settled, resolve_pointers, drop_pointers}
use flow_indicator.State.Episodes.{
  Episodes, project_repair, settle_pollution, settle_durability, reset_episodes,
}
use flow_indicator.State.Episodes.Store.{Step}
use flow_indicator.State.Log.{Log, say, say_one}
use flow_indicator.Event.{emit}
use flow_indicator.State.Payloads.{Payload, Draft, epoch_closed}
use flow_indicator.State.Projector.Defs.{
  Setup, Projector, Pass, update, report, with_episodes, with_pointers, moment, clear_rolling,
}
use flow_indicator.State.Projector.Turn.{
  begin_turn, mark_repeats, remember, apply_reset, join_control, conclude, settle_previous,
  project_turn, project_operator, baseline_eligible,
}
use flow_indicator.State.Projector.Demands.{ObligationTurn, project_obligations}
use flow_indicator.State.Times.{InYears, IsTimed, Fits, IsEncoder, AllFit, TimedStep}
use flow_indicator.State.Times.Settled.{
  attribute-IsTimed, settle_pollution-IsTimed, settle_durability-IsTimed, reset_episodes-IsTimed,
}
use flow_indicator.State.Times.Projected.{project_repair-IsTimed}
use flow_indicator.State.Times.Drafts.{
  resolve_pointers-AllFit, outcomes_of-AllFit, project_obligations-AllFit, concluding-AllFit,
}

-- Every time that the projector may emit lies in its years.
abbrev pub TimedProjector : Projector → Type 0
TimedProjector p =
    All IsTimed p.episodes.repairs × InYears p.last_agent_time × InYears p.operator_time

abbrev pub CalmLog : (Payload → Bool) → Log → Type 0
CalmLog m l = (l.panic ≡ none) × (l.marshals ≡ m)

-- The pass has not stopped in `Emit`.
abbrev pub IsCalm : (Payload → Bool) → Pass → Type 0
IsCalm m w = CalmLog m w.log × TimedProjector w.projector

module _ (m : Payload → Bool) (enc : IsEncoder m) where
  say_one-CalmLog : (d : Draft) (l : Log) → Fits d.payload → CalmLog m l → CalmLog m (say_one d l)
  unfolding say_one emit
  say_one-CalmLog d l h (going, same_encoder) =
      let taken : l.marshals d.payload ≡ true =
        ap (λ f. f d.payload) same_encoder ∙ enc d.payload h in
      rw (say_one, emit, going, taken) (going, same_encoder)

  pub say-CalmLog : (ds : List Draft) (l : Log) → AllFit ds → CalmLog m l → CalmLog m (say ds l)
  unfolding say
  say-CalmLog [] l h v = v
  say-CalmLog (d ∷ ds) l h v = say-CalmLog ds (say_one d l) h.1 (say_one-CalmLog d l h.0 v)

  pub report-IsCalm : (ds : List Draft) (w : Pass) → AllFit ds → IsCalm m w → IsCalm m (report ds w)
  report-IsCalm ds w h v = (say-CalmLog ds w.log h v.0, v.1)

  pub with_episodes-IsCalm :
      (f : Episodes → Step) (w : Pass)
      → TimedStep (f w.projector.episodes)
      → IsCalm m w
      → IsCalm m (with_episodes f w)
  with_episodes-IsCalm f w h v =
      (say-CalmLog (f w.projector.episodes).1 w.log h.1 v.0, (h.0, v.1.1, v.1.2))

  with_pointers-IsCalm :
      (f : Pointers → Settled) (w : Pass)
      → AllFit (f w.projector.pointers).1
      → IsCalm m w
      → IsCalm m (with_pointers f w)
  with_pointers-IsCalm f w h v = (say-CalmLog (f w.projector.pointers).1 w.log h v.0, v.1)

  settle_previous-IsCalm :
      (setup : Setup) (res : Result) (w : Pass)
      → IsCalm m w
      → IsCalm m (settle_previous setup res w)
  unfolding settle_previous
  settle_previous-IsCalm setup res w v =
      let again = res.correction.is_correction in
      let n = setup.config.window.rolling_turns in
      let w₁ = with_episodes (settle_pollution again) w in
      let v₁ =
        with_episodes-IsCalm (settle_pollution again) w
          (settle_pollution-IsTimed again w.projector.episodes v.1.0) v in
      let p = w₁.projector in
      let f = resolve_pointers n p.last_agent_seq p.turn_index res in
      let w₂ = with_pointers f w₁ in
      let v₂ =
        with_pointers-IsCalm f w₁
          (resolve_pointers-AllFit n p.last_agent_seq p.turn_index res p.pointers) v₁ in
      let d = setup.config.window.correction_durability_turns in
      with_episodes-IsCalm (settle_durability d w₂.projector.turn_index) w₂
        (settle_durability-IsTimed d w₂.projector.turn_index w₂.projector.episodes v₂.1.0) v₂

  mark_repeats-IsTimed :
      (is : List ℕ) (p : Projector) → TimedProjector p → TimedProjector (mark_repeats is p)
  unfolding mark_repeats
  mark_repeats-IsTimed [] p v = v
  mark_repeats-IsTimed (i ∷ is) p v = v

  project_turn-IsCalm :
      (setup : Setup) (rec : Record) (obs : Observation) (res : Result) (t : ObligationTurn)
      (w : Pass)
      → InYears rec.timestamp
      → AllFit t.out
      → IsCalm m w
      → IsCalm m (project_turn setup rec obs res t w)
  unfolding project_turn remember
  project_turn-IsCalm setup rec obs res t w h fit v =
      let p = mark_repeats t.repeated (record (w.projector) { obligations = t.obligations }) in
      let vp =
        mark_repeats-IsTimed t.repeated (record (w.projector) { obligations = t.obligations })
          v.1 in
      let w₁ = report t.out (record w { projector = p }) in
      let v₁ = report-IsCalm t.out (record w { projector = p }) fit (v.0, vp) in
      let v₂ =
        with_episodes-IsCalm (project_repair (moment setup p) rec res) w₁
          (project_repair-IsTimed (moment setup p) rec res p.episodes h (vp.1, vp.2) vp.0) v₁ in
      let w₂ = with_episodes (project_repair (moment setup p) rec res) w₁ in
      (v₂.0, (attribute-IsTimed rec obs.chars w₂.projector.episodes h v₂.1.0, v₂.1.1, v₂.1.2))

  apply_reset-IsCalm :
      (rec : Record) (w : Pass) → InYears rec.timestamp → IsCalm m w → IsCalm m (apply_reset rec w)
  unfolding apply_reset drop_pointers
  apply_reset-IsCalm rec w h v =
      let v₁ =
        with_episodes-IsCalm (reset_episodes rec) w
          (reset_episodes-IsTimed rec w.projector.episodes h v.1.0) v in
      let w₁ = with_episodes (reset_episodes rec) w in
      let v₂ =
        with_pointers-IsCalm drop_pointers w₁
          (outcomes_of-AllFit epoch_closed w₁.projector.pointers.pending) v₁ in
      (say-CalmLog _ _ (tt, tt) v₂.0, v₂.1)

  join_control-IsTimed :
      (setup : Setup) (obs : Observation) (res : Result) (p : Projector)
      → TimedProjector p
      → TimedProjector (join_control setup obs res p)
  unfolding join_control
  join_control-IsTimed setup obs res p v =
      elim (Bool-cases (not res.pointer.is_pointer && baseline_eligible p res)) [
        | inl t ↦ rw (join_control, t) v
        | inr t ↦ rw (join_control, t) v
      ]

  conclude-IsCalm :
      (setup : Setup) (rec : Record) (obs : Observation) (res : Result) (n : ℕ) (w : Pass)
      → IsCalm m w
      → IsCalm m (conclude setup rec obs res n w)
  unfolding conclude
  conclude-IsCalm setup rec obs res n w v = (
    say-CalmLog _ w.log (concluding-AllFit _ _ _ _ _) v.0,
    join_control-IsTimed setup obs res w.projector v.1,
  )

  begin_turn-IsTimed : (p : Projector) → TimedProjector p → TimedProjector (begin_turn p)
  unfolding begin_turn clear_rolling
  begin_turn-IsTimed p v = elim (Bool-cases p.reset_pending) [
    | inl t ↦ rw (begin_turn, t) v
    | inr t ↦ rw (begin_turn, t) v
  ]

  either-IsCalm :
      (b : Bool) (w w' : Pass) → IsCalm m w → IsCalm m w' → IsCalm m (if b then w else w')
  either-IsCalm true w w' v v' = v
  either-IsCalm false w w' v v' = v'

  pub project_operator-IsCalm :
      (setup : Setup) (rec : Record) (obs : Observation) (res : Result) (w : Pass)
      → InYears rec.timestamp
      → IsCalm m w
      → IsCalm m (project_operator setup rec obs res w)
  unfolding project_operator
  project_operator-IsCalm setup rec obs res w h v =
      let w₁ = settle_previous setup res (update begin_turn w) in
      let v₁ =
        settle_previous-IsCalm setup res (update begin_turn w)
          (v.0, begin_turn-IsTimed w.projector v.1) in
      let t = project_obligations setup w₁.projector rec res in
      let w₂ = project_turn setup rec obs res t w₁ in
      let v₂ =
        project_turn-IsCalm setup rec obs res t w₁ h
          (project_obligations-AllFit setup w₁.projector rec res) v₁ in
      conclude-IsCalm setup rec obs res (length t.introduced)
        (if res.reset then apply_reset rec w₂ else w₂)
        (either-IsCalm res.reset (apply_reset rec w₂) w₂ (apply_reset-IsCalm rec w₂ h v₂) v₂)
