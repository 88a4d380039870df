-- ===== src/State/Episodes/Ending.antt =====
-- What a reset and the end of the source do to the episodes;
-- internal/state/projector.go.
use flow_indicator.Base.{
  ℕ, ◌-◌, Option, none, some, List, [], ◌∷◌, ◌++◌, length, get_elem?, update_at,
}
use flow_indicator.Metrics.Snapshot.{reset_episode, undetermined}
use flow_indicator.Stream.{Record}
use flow_indicator.State.Repair.{Repair, close}
use flow_indicator.Event.{derived, repair_reset, repair_status}
use flow_indicator.State.Payloads.{
  Draft, draft, License, repair_payload, repair_status_payload, source_ended, epoch_ended,
}
use flow_indicator.State.Episodes.Store.{Episodes, Step}
use flow_indicator.State.Episodes.Settle.{with_status}

-- The part of `applyReset` that closes the open episode.
unfoldable pub reset_active : Record → Episodes → Step
unfolding close
reset_active rec e = elim e.active [
  | none ↦ (e, [])
  | some i ↦ elim (get_elem? e.repairs i) [
    | none ↦ (e, [])
    | some r ↦ (
      record e {
        repairs = update_at (close reset_episode rec.timestamp) i e.repairs;
        active = none;
        cycle = none;
      },
      draft repair_reset derived
            (repair_payload (close reset_episode rec.timestamp r) License.reset)
          ∷ [],
    )
  ]
]

unfoldable pub abandon_closing : List ℕ → List Repair → List Repair × List Draft
abandon_closing [] repairs = (repairs, [])
abandon_closing (i ∷ is) repairs = elim (get_elem? repairs i) [
  | none ↦ abandon_closing is repairs
  | some r ↦
      let (repairs', ds) = abandon_closing is (update_at with_status i repairs) in
      (
        repairs',
        draft repair_status derived (repair_status_payload (with_status r) undetermined epoch_ended)
            ∷ ds,
      )
]

-- The part of `applyReset` that reaches the episodes.
unfoldable pub reset_episodes : Record → Episodes → Step
unfolding reset_active abandon_closing
reset_episodes rec e =
    let (e', ds) = reset_active rec e in
    let (repairs, ds') = abandon_closing e'.closing e'.repairs in
    (record e' { repairs = repairs; closing = [] }, ds ++ ds')

-- The part of `Finish` that closes the open episode.
unfoldable pub finish_active : Episodes → Step
unfolding close
finish_active e = elim e.active [
  | none ↦ (e, [])
  | some i ↦ elim (get_elem? e.repairs i) [
    | none ↦ (e, [])
    | some r ↦ (
      record e {
        repairs = update_at (λ (x : Repair). close undetermined x.last_activity x) i e.repairs;
        active = none;
        cycle = none;
      },
      draft repair_status derived
            (repair_status_payload (close undetermined r.last_activity r) undetermined source_ended)
          ∷ [],
    )
  ]
]

-- `currentRepair`.
unfoldable pub current_repair : Episodes → Option Repair
current_repair e = elim e.active [
  | some i ↦ get_elem? e.repairs i
  | none ↦ get_elem? e.repairs (length e.repairs - 1)
]
