-- ===== src/State/Projector/Invariant.antt =====
-- What holds of a projector at all times; internal/state/projector.go.
use flow_indicator.Base.{
  ℕ, ◌≡◌, refl, inl, inr, String, Bool, true, false, List, [], ◌∷◌, arith, Option-cases, Bool-cases,
  get_elem?, if◌then◌else◌, length, ◌||◌, not, ◌&&◌,
}
use flow_indicator.Stream.{Record}
use flow_indicator.Observe.{Observation}
use flow_indicator.Classify.{Result, ObligationResolution}
use flow_indicator.State.Obligations.{Obligation, Obligations, resolve, violate}
use flow_indicator.State.Obligations.Invariant.{IsWellFormed, new_obligations-IsWellFormed}
use flow_indicator.State.Obligations.Resolving.{
  resolve-IsWellFormed, violate-IsWellFormed, mark_unknown-IsWellFormed,
}
use flow_indicator.State.Obligations.Applying.{apply-IsWellFormed}
use flow_indicator.State.Episodes.Invariant.{IsConsistent, no_episodes-IsConsistent}
use flow_indicator.State.Episodes.Preserve.{attribute-IsConsistent, settle_pollution-IsConsistent}
use flow_indicator.State.Episodes.Closing.{
  settle_durability-IsConsistent, reset_episodes-IsConsistent,
}
use flow_indicator.State.Episodes.Reopening.{project_repair-IsConsistent}
use flow_indicator.State.Projector.Defs.{
  Setup, Projector, Pass, new_projector, moment, clear_rolling,
}
use flow_indicator.State.Projector.Turn.{
  begin_turn, baseline_eligible, mark_repeats, remember, apply_reset, join_control, conclude,
  settle_previous, project_turn, project_operator,
}
use flow_indicator.State.Projector.Demands.{
  resolve_one, resolve_obligations, can_resolve, is_blank, corrects, violate_repeated,
  repeat_obligations, project_obligations, ObligationTurn,
}

-- The obligation surface and the episodes of a projector.
pub record IsSound (p : Projector) : Type 0 where
  pub obligations : IsWellFormed p.obligations
  pub episodes : IsConsistent p.episodes

pub new_projector-IsSound : (setup : Setup) (s : String) → IsSound (new_projector setup s)
unfolding new_projector
new_projector-IsSound setup s = record {
  obligations = new_obligations-IsWellFormed;
  episodes = no_episodes-IsConsistent;
}

-- What leaves the surface and the episodes alone.
pub same-IsSound :
    (p q : Projector)
    → q.obligations ≡ p.obligations
    → q.episodes ≡ p.episodes
    → IsSound p
    → IsSound q
same-IsSound p q o e v = record { obligations = rw o v.obligations; episodes = rw e v.episodes }

begin_turn-IsSound : (p : Projector) → IsSound p → IsSound (begin_turn p)
unfolding begin_turn clear_rolling
begin_turn-IsSound p v = elim (Bool-cases p.reset_pending) [
  | inl t ↦ same-IsSound p (begin_turn p) (ground arith) (ground arith) v
  | inr t ↦ same-IsSound p (begin_turn p) (ground arith) (ground arith) v
]

resolve_one-IsWellFormed :
    (setup : Setup) (seq : ℕ) (res : Result) (r : ObligationResolution) (o : Obligations)
    → IsWellFormed o
    → IsWellFormed (resolve_one setup seq res r o).0
unfolding resolve_one
resolve_one-IsWellFormed setup seq res r o v =
    let w = resolve-IsWellFormed seq r.key r.kind o v in
    elim (Bool-cases
      (not (can_resolve setup.capabilities r.kind) || is_blank setup.unicode r.evidence)) [
        | inl t ↦ rw (resolve_one, t) v
        | inr t ↦ elim (Option-cases ((resolve seq r.key r.kind o).1)) [
          | inl n ↦ rw (resolve_one, t, n) w
          | inr (i, h) ↦ rw (resolve_one, t, h) w
        ]
      ]

resolve_obligations-IsWellFormed :
    (setup : Setup) (seq : ℕ) (res : Result) (rs : List ObligationResolution) (o : Obligations)
    → IsWellFormed o
    → IsWellFormed (resolve_obligations setup seq res rs o).0
unfolding resolve_obligations
resolve_obligations-IsWellFormed setup seq res [] o v = v
resolve_obligations-IsWellFormed setup seq res (r ∷ rs) o v =
    resolve_obligations-IsWellFormed setup seq res rs (resolve_one setup seq res r o).0
      (resolve_one-IsWellFormed setup seq res r o v)

violate_repeated-IsWellFormed :
    (res : Result) (ob : Obligation) (o : Obligations)
    → IsWellFormed o
    → IsWellFormed (violate_repeated res ob o).0
unfolding violate_repeated
violate_repeated-IsWellFormed res ob o v =
    let w = violate-IsWellFormed ob.key o v in
    elim (Bool-cases (corrects res ob)) [
      | inl t ↦ elim (Option-cases ((violate ob.key o).1)) [
        | inl n ↦ rw (violate_repeated, t, n) w
        | inr (i, h) ↦ rw (violate_repeated, t, h) w
      ]
      | inr t ↦ rw (violate_repeated, t) v
    ]

repeat_obligations-IsWellFormed :
    (res : Result) (is : List ℕ) (o : Obligations)
    → IsWellFormed o
    → IsWellFormed (repeat_obligations res is o).0
unfolding repeat_obligations
repeat_obligations-IsWellFormed res [] o v = v
repeat_obligations-IsWellFormed res (i ∷ is) o v = elim (Option-cases (get_elem? o.order i)) [
  | inl n ↦ rw (n, repeat_obligations) (repeat_obligations-IsWellFormed res is o v)
  | inr (ob, at) ↦
      rw (at, repeat_obligations)
        (repeat_obligations-IsWellFormed res is (violate_repeated res ob o).0
          (violate_repeated-IsWellFormed res ob o v))
]

project_obligations-IsWellFormed :
    (setup : Setup) (p : Projector) (rec : Record) (res : Result)
    → IsWellFormed p.obligations
    → IsWellFormed (project_obligations setup p rec res).obligations
unfolding project_obligations
project_obligations-IsWellFormed setup p rec res v = repeat_obligations-IsWellFormed res _ _ (
    apply-IsWellFormed rec.seq p.epoch p.turn_index res.obligations _
      (resolve_obligations-IsWellFormed setup rec.seq res res.resolutions p.obligations v))

settle_previous-IsSound :
    (setup : Setup) (res : Result) (w : Pass)
    → IsSound w.projector
    → IsSound (settle_previous setup res w).projector
unfolding settle_previous
settle_previous-IsSound setup res w v = record {
  obligations = v.obligations;
  episodes =
      settle_durability-IsConsistent _ _ _ (
        settle_pollution-IsConsistent res.correction.is_correction w.projector.episodes v.episodes);
}

mark_repeats-IsSound : (is : List ℕ) (p : Projector) → IsSound p → IsSound (mark_repeats is p)
unfolding mark_repeats
mark_repeats-IsSound [] p v = v
mark_repeats-IsSound (i ∷ is) p v = same-IsSound p _ refl refl v

apply_reset-IsSound :
    (rec : Record) (w : Pass) → IsSound w.projector → IsSound (apply_reset rec w).projector
unfolding apply_reset
apply_reset-IsSound rec w v = record {
  obligations = mark_unknown-IsWellFormed w.projector.obligations v.obligations;
  episodes = reset_episodes-IsConsistent rec w.projector.episodes v.episodes;
}

either-IsSound :
    (b : Bool) (w w' : Pass)
    → IsSound w.projector
    → IsSound w'.projector
    → IsSound (if b then w else w').projector
either-IsSound true w w' v v' = v
either-IsSound false w w' v v' = v'

join_control-IsSound :
    (setup : Setup) (obs : Observation) (res : Result) (p : Projector)
    → IsSound p
    → IsSound (join_control setup obs res p)
unfolding join_control
join_control-IsSound setup obs res p v =
    elim (Bool-cases (not res.pointer.is_pointer && baseline_eligible p res)) [
      | inl t ↦ same-IsSound p (join_control setup obs res p) (ground arith) (ground arith) v
      | inr t ↦ same-IsSound p (join_control setup obs res p) (ground arith) (ground arith) v
    ]

conclude-IsSound :
    (setup : Setup) (rec : Record) (obs : Observation) (res : Result) (introduced : ℕ) (w : Pass)
    → IsSound w.projector
    → IsSound (conclude setup rec obs res introduced w).projector
unfolding conclude
conclude-IsSound setup rec obs res introduced w v =
    same-IsSound (join_control setup obs res w.projector) _ refl refl
      (join_control-IsSound setup obs res w.projector v)

project_turn-IsSound :
    (setup : Setup) (rec : Record) (obs : Observation) (res : Result) (t : ObligationTurn)
    (w : Pass)
    → IsWellFormed t.obligations
    → IsConsistent w.projector.episodes
    → IsSound (project_turn setup rec obs res t w).projector
unfolding project_turn remember
project_turn-IsSound setup rec obs res t w o v =
    let p₁ : Projector = record (w.projector) { obligations = t.obligations } in
    let m = mark_repeats-IsSound t.repeated p₁ (record { obligations = o; episodes = v }) in
    record {
      obligations = m.obligations;
      episodes = attribute-IsConsistent rec obs.chars _ (
          project_repair-IsConsistent (moment setup (mark_repeats t.repeated p₁)) rec res _
            m.episodes);
    }

pub project_operator-IsSound :
    (setup : Setup) (rec : Record) (obs : Observation) (res : Result) (w : Pass)
    → IsSound w.projector
    → IsSound (project_operator setup rec obs res w).projector
unfolding project_operator
project_operator-IsSound setup rec obs res w v =
    let w₁ = settle_previous setup res (record w { projector = begin_turn w.projector }) in
    let v₁ =
      settle_previous-IsSound setup res (record w { projector = begin_turn w.projector })
        (begin_turn-IsSound w.projector v) in
    let t = project_obligations setup w₁.projector rec res in
    let o = project_obligations-IsWellFormed setup w₁.projector rec res v₁.obligations in
    let w₂ = project_turn setup rec obs res t w₁ in
    let v₂ = project_turn-IsSound setup rec obs res t w₁ o v₁.episodes in
    conclude-IsSound setup rec obs res (length t.introduced)
      (if res.reset then apply_reset rec w₂ else w₂)
      (either-IsSound res.reset (apply_reset rec w₂) w₂ (apply_reset-IsSound rec w₂ v₂) v₂)
