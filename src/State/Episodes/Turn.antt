-- ===== src/State/Episodes/Turn.antt =====
-- How an operator turn closes an episode, and how a re-edit opens one;
-- internal/state/projector.go.
use flow_indicator.Base.{
  ℕ, ◌+◌, ◌-◌, String, Bool, true, not, ◌&&◌, ◌||◌, none, some, List, [], ◌∷◌, ◌++◌, ltb, leb, ◌==◌,
  if◌then◌else◌, get_elem?, update_at,
}
use flow_indicator.Metrics.Snapshot.{provisional, undetermined}
use flow_indicator.Stream.{Record}
use flow_indicator.Classify.{Result, chars_in, control, restate, recovery, forward}
use flow_indicator.State.Repair.{Repair, new_repair, close}
use flow_indicator.Event.{derived, repair_opened, repair_provisional_close, repair_status}
use flow_indicator.State.Payloads.{
  draft, License, repair_payload, repair_status_payload, window_ran_out,
}
use flow_indicator.State.Episodes.Store.{Episodes, Step, cycle_unanswered}
use flow_indicator.State.Episodes.Corrections.{Moment, append_repair, project_correction}

-- Is the operator still on the episode in play? The `onEpisode` of the source.
unfoldable pub on_episode : Result → Bool
unfolding chars_in
on_episode res =
    res.continuation
    || res.stop
    || ltb 0 (chars_in res control)
    || ltb 0 (chars_in res restate)
    || ltb 0 (chars_in res recovery)

-- No closing evidence: not accepted, no forward work, and the operator still on the episode.
unfoldable pub keeps_open : Result → Bool
unfolding on_episode
keeps_open res = not res.acceptance && chars_in res forward == 0 && on_episode res

abbrev pub provisionally_closed : ℕ → ℕ → Repair → Repair
unfolding close
provisionally_closed turn t r = record (close provisional t r) { close_index = turn }

-- `projectRepair` for a turn without a correction, with the open episode `r` at position `i`.
unfoldable pub project_open : Moment → Record → Result → ℕ → Repair → Episodes → Step
unfolding keeps_open close
project_open m rec res i r e =
    if keeps_open res
    then if leb m.durability (m.turn_index - r.active_index)
      then (
        record e {
          repairs = update_at (close undetermined rec.timestamp) i e.repairs;
          active = none;
          cycle = none;
        },
        draft repair_status derived (
              repair_status_payload (close undetermined rec.timestamp r) undetermined
                window_ran_out)
            ∷ [],
      )
      else (e, [])
    else (
      record e {
        repairs = update_at (provisionally_closed m.turn_index rec.timestamp) i e.repairs;
        active = none;
        closing = e.closing ++ i ∷ [];
      },
      draft repair_provisional_close derived
            (repair_payload (provisionally_closed m.turn_index rec.timestamp r) License.provisional)
          ∷ [],
    )

-- `projectRepair`.
unfoldable pub project_repair : Moment → Record → Result → Episodes → Step
unfolding project_correction project_open cycle_unanswered
project_repair m rec res e =
    if res.correction.is_correction
    then project_correction m rec res e
    else if cycle_unanswered e
    then (e, [])
    else elim e.active [
      | none ↦ (e, [])
      | some i ↦ elim (get_elem? e.repairs i) [
        | none ↦ (e, [])
        | some r ↦ project_open m rec res i r e
      ]
    ]

-- The episode that a re-edit opens, for the overlapping paths `p ∷ ps`.
abbrev pub re_edited : Moment → Record → String → List String → ℕ → Repair
unfolding new_repair
re_edited m rec p ps id =
    record (new_repair id m.epoch m.last_agent_seq m.operator_seq "path" p 0
      (if m.operator_time == 0 then rec.timestamp else m.operator_time)) {
        target_paths = p ∷ ps;
        structural = true;
        active_index = m.turn_index;
      }

-- `openStructuralRepair`.
unfoldable pub open_structural_repair : Moment → Record → String → List String → Episodes → Step
unfolding new_repair
open_structural_repair m rec p ps e =
    let fresh = re_edited m rec p ps (e.repair_count + 1) in
    (
      append_repair fresh e,
      draft repair_opened derived (repair_payload fresh License.structural) ∷ [],
    )
