-- ===== src/State/Projector/Panics/Total.antt =====
-- When a stream never makes `Push` panic; internal/state/projector.go.
use flow_indicator.Base.{
  ap, ◌≡◌, refl, inl, inr, String, Bool, true, false, Option, none, some, List, [], ◌∷◌, arith,
  Option-cases, is_some, ◌||◌, All,
}
use flow_indicator.Stream.{Record, is_operator_turn}
use flow_indicator.Classify.{Answer, Input}
use flow_indicator.State.Projector.Defs.{Setup, Projector, Pass, new_projector}
use flow_indicator.State.Projector.Push.{attempt, returned, unless, push, run}
use flow_indicator.State.Payloads.{Payload}
use flow_indicator.State.Times.{InYears, zero-InYears, IsEncoder}
use flow_indicator.State.Times.Passes.{TimedProjector}
use flow_indicator.State.Times.Records.{CalmPass, attempt-CalmPass}
use flow_indicator.State.Projector.Panics.{writes_too_early, Written, attempt-Written}

-- The projector stays one that takes every record at a time in its years.
abbrev IsReady : Projector → Type 0
IsReady p = (is_some p.cycle_writes ≡ true) × TimedProjector p

new_projector-Timed : (setup : Setup) (s : String) → TimedProjector (new_projector setup s)
unfolding new_projector
new_projector-Timed setup s = (tt, zero-InYears, zero-InYears)

returned-some :
    (m : Payload → Bool) (early there : Bool) (o : Option Pass)
    → Written early there o
    → CalmPass m o
    → early ≡ false
    → there ≡ true
    → (w : Pass) × (returned o ≡ some w) × IsReady w.projector
returned-some m early there none v c h k = cc
returned-some m early there (some w) v c h k =
    let going : w.log.panic ≡ none = c.0.0 in (w, ap (λ o. unless o w) going, (v.1 k, c.1))

push-some :
    (setup : Setup) (classify : Input → Answer) (rec : Record) (p : Projector)
    → IsEncoder setup.marshals
    → InYears rec.timestamp
    → TimedProjector p
    → writes_too_early p rec ≡ false
    → (is_operator_turn rec || is_some p.cycle_writes) ≡ true
    → (w : Pass) × (push setup classify rec p ≡ some w) × IsReady w.projector
unfolding push
push-some setup classify rec p enc h v early there =
    returned-some setup.marshals (writes_too_early p rec)
      (is_operator_turn rec || is_some p.cycle_writes) (attempt setup classify rec p)
      (attempt-Written setup classify rec p) (attempt-CalmPass setup classify rec p enc h v) early
      there

not_early :
    (p : Projector) (rec : Record) → is_some p.cycle_writes ≡ true → writes_too_early p rec ≡ false
not_early p rec h = elim (Option-cases p.cycle_writes) [
  | inl n ↦ absurd (ground arith)
  | inr (c, cy) ↦ ground arith
]

-- Every record of a stream is at a time in its years.
abbrev pub TimedStream : List ((Input → Answer) × Record) → Type 0
TimedStream rs = All (λ r. InYears r.1.timestamp) rs

run_from_some :
    (setup : Setup) (rs : List ((Input → Answer) × Record)) (p : Projector)
    → IsEncoder setup.marshals
    → TimedStream rs
    → IsReady p
    → is_some (run setup rs p) ≡ true
unfolding run
run_from_some setup [] p enc h v = refl
run_from_some setup ((classify, rec) ∷ rs) p enc h v =
    let there : (is_operator_turn rec || is_some p.cycle_writes) ≡ true =
      let written = v.0 in ground arith in
    let (w, s, k) = push-some setup classify rec p enc h.0 v.1 (not_early p rec v.0) there in
    rw (run, s) (run_from_some setup rs w.projector enc h.1 k)

pub run_total :
    (setup : Setup) (s : String) (classify : Input → Answer) (rec : Record)
    (rs : List ((Input → Answer) × Record))
    → IsEncoder setup.marshals
    → TimedStream ((classify, rec) ∷ rs)
    → is_operator_turn rec ≡ true
    → is_some (run setup ((classify, rec) ∷ rs) (new_projector setup s)) ≡ true
unfolding run
run_total setup s classify rec rs enc timed h =
    let p = new_projector setup s in
    let early : writes_too_early p rec ≡ false = ground arith in
    let there : (is_operator_turn rec || is_some p.cycle_writes) ≡ true = ground arith in
    let (w, q, k) =
      push-some setup classify rec p enc timed.0 (new_projector-Timed setup s) early there in
    rw (run, q) (run_from_some setup rs w.projector enc timed.1 k)
