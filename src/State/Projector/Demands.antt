-- ===== src/State/Projector/Demands.antt =====
-- What an operator turn asks for: its obligations; internal/state/projector.go.
use Prim.Native.String.{String}
use flow_indicator.Base.{
  ℕ, Bool, false, not, ◌&&◌, ◌||◌, none, some, List, [], ◌∷◌, ◌++◌, same, if◌then◌else◌, get_elem?,
}
use flow_indicator.Stream.{Record, Unicode, trim_func}
use flow_indicator.Classify.{
  Result, ResolutionKind, ObligationResolution, released, superseded, satisfied, unrecognized,
  Capability, can, obligation_release, obligation_supersession, obligation_satisfaction,
}
use flow_indicator.Event.{
  Kind, derived, obligation_introduced, obligation_repeated, obligation_satisfied,
  obligation_violated, obligation_released, obligation_superseded, obligation_revived,
}
use flow_indicator.State.Obligations.{Obligation, Obligations, Revival, apply, resolve, violate}
use flow_indicator.State.Payloads.{
  Draft, draft, obligation_payload, obligation_repeat_payload, obligation_resolved_payload,
  obligation_revived_payload,
}
use flow_indicator.State.Projector.Defs.{Setup, Projector}

-- `canResolve`.
unfoldable pub can_resolve : List Capability → ResolutionKind → Bool
unfolding can
can_resolve caps released = can caps obligation_release
can_resolve caps superseded = can caps obligation_supersession
can_resolve caps satisfied = can caps obligation_satisfaction
can_resolve caps unrecognized = false

-- `resolutionEventKind`.
unfoldable pub resolution_event_kind : ResolutionKind → Kind
resolution_event_kind released = obligation_released
resolution_event_kind superseded = obligation_superseded
resolution_event_kind _ = obligation_satisfied

-- `strings.TrimSpace(s) == ""`.
abbrev pub is_blank : Unicode → String → Bool
unfolding trim_func
is_blank u s = same (trim_func u.is_space s) ""

-- What a method of the obligations emits about the obligation at a position.
abbrev pub about : Obligations → ℕ → (Obligation → Draft) → List Draft
about o i f = elim (get_elem? o.order i) [ none ↦ [] | some ob ↦ f ob ∷ [] ]

abbrev ObligationStep : Type 0
ObligationStep = Obligations × List Draft

unfoldable pub resolve_one :
    Setup → ℕ → Result → ObligationResolution → Obligations → ObligationStep
unfolding can_resolve trim_func resolve resolution_event_kind
resolve_one setup seq res r o =
    if not (can_resolve setup.capabilities r.kind) || is_blank setup.unicode r.evidence
    then (o, [])
    else elim ((resolve seq r.key r.kind o).1) [
      | none ↦ ((resolve seq r.key r.kind o).0, [])
      | some i ↦ (
        (resolve seq r.key r.kind o).0,
        about (resolve seq r.key r.kind o).0 i λ ob.
            draft (resolution_event_kind r.kind) derived
              (obligation_resolved_payload ob r.kind res.provenance r.evidence),
      )
    ]

-- `resolveObligations`.
unfoldable pub resolve_obligations :
    Setup → ℕ → Result → List ObligationResolution → Obligations → ObligationStep
unfolding resolve_one
resolve_obligations setup seq res [] o = (o, [])
resolve_obligations setup seq res (r ∷ rs) o =
    let (o', ds) = resolve_one setup seq res r o in
    let (o'', ds') = resolve_obligations setup seq res rs o' in (o'', ds ++ ds')

abbrev pub introduced_drafts : Obligations → List ℕ → List Draft
introduced_drafts o [] = []
introduced_drafts o (i ∷ is) =
    about o i (λ ob. draft obligation_introduced derived (obligation_payload ob))
    ++ introduced_drafts o is

abbrev pub revived_drafts : Obligations → List Revival → List Draft
revived_drafts o [] = []
revived_drafts o (r ∷ rs) =
    about o r.obligation
      (λ ob. draft obligation_revived derived (obligation_revived_payload ob r.from))
    ++ revived_drafts o rs

-- Is the correction about this obligation?
abbrev pub corrects : Result → Obligation → Bool
corrects res ob = res.correction.is_correction && same res.correction.target_key ob.key

unfoldable pub violate_repeated : Result → Obligation → Obligations → ObligationStep
unfolding violate
violate_repeated res ob o =
    if corrects res ob
    then elim ((violate ob.key o).1) [
      | none ↦ ((violate ob.key o).0, [])
      | some i ↦ (
        (violate ob.key o).0,
        about (violate ob.key o).0 i
            (λ v. draft obligation_violated derived (obligation_payload v)),
      )
    ]
    else (o, [])

-- The loop over `repeated`.
unfoldable pub repeat_obligations : Result → List ℕ → Obligations → ObligationStep
unfolding violate_repeated
repeat_obligations res [] o = (o, [])
repeat_obligations res (i ∷ is) o = elim (get_elem? o.order i) [
  | none ↦ repeat_obligations res is o
  | some ob ↦
      let (o', ds) = violate_repeated res ob o in
      let (o'', ds') = repeat_obligations res is o' in
      (
        o'',
        draft obligation_repeated derived
              (obligation_repeat_payload ob res.correction.is_correction)
            ∷ (ds ++ ds'),
      )
]

-- What the turn does to the obligation surface, and what of it `projectOperator` goes on with.
pub record ObligationTurn : Type 0 where
  pub obligations : Obligations
  pub introduced : List ℕ
  pub repeated : List ℕ
  pub out : List Draft

unfoldable pub project_obligations : Setup → Projector → Record → Result → ObligationTurn
unfolding resolve_obligations apply repeat_obligations
project_obligations setup p rec res =
    let (o, ds) = resolve_obligations setup rec.seq res res.resolutions p.obligations in
    let a = apply rec.seq p.epoch p.turn_index res.obligations o in
    let (o', ds') = repeat_obligations res a.repeated a.surface in
    record {
      obligations = o';
      introduced = a.introduced;
      repeated = a.repeated;
      out =
          ds
          ++ introduced_drafts a.surface a.introduced
          ++ revived_drafts a.surface a.revived
          ++ ds';
    }
