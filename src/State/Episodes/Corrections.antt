-- ===== src/State/Episodes/Corrections.antt =====
-- How a correction opens, deepens or reopens an episode;
-- internal/state/projector.go.
use flow_indicator.Base.{
  ℕ, ◌+◌, String, Bool, true, not, ◌&&◌, Option, none, some, List, [], ◌∷◌, ◌++◌, ◌==◌, same,
  if◌then◌else◌, length, get_elem?, update_at, contains,
}
use flow_indicator.Metrics.Snapshot.{undetermined}
use flow_indicator.Stream.{Record}
use flow_indicator.Classify.{Result}
use flow_indicator.State.Repair.{Repair, new_repair, close, reopen}
use flow_indicator.Event.{derived, repair_opened, repair_deepened, repair_recurred, repair_status}
use flow_indicator.State.Payloads.{
  draft, repair_payload, repair_status_payload, opened, deepened, recurred, unrelated_correction,
}
use flow_indicator.State.Episodes.Store.{Episodes, Step, change, open_cycle}

-- `targetEquivalent`.
unfoldable pub target_equivalent : String → String → Bool
target_equivalent a b = not (same a "") && not (same b "") && same a b

abbrev pub add_new : List String → List String → List String
add_new out [] = out
add_new out (t ∷ ts) = add_new (if contains t out then out else out ++ t ∷ []) ts

-- `mergePaths`.
unfoldable pub merge_paths : List String → List String → List String
merge_paths a [] = a
merge_paths a (b ∷ bs) = add_new (add_new [] a) (b ∷ bs)

-- `retireActive`, for the open episode `r` at position `i`.
unfoldable pub retire_active : Record → ℕ → Repair → Episodes → Step
unfolding close
retire_active rec i r e = (
  record e {
    repairs = update_at (close undetermined rec.timestamp) i e.repairs;
    active = none;
    cycle = none;
  },
  draft repair_status derived (
        repair_status_payload (close undetermined rec.timestamp r) undetermined
          unrelated_correction)
      ∷ [],
)

pub record Reopened : Type 0 where
  pub position : ℕ
  pub rest : List ℕ

abbrev pub behind : ℕ → Option Reopened → Option Reopened
behind i none = none
behind i (some r) = some (record r { rest = i ∷ r.rest })

unfoldable pub find_closing : String → List Repair → List ℕ → Option Reopened
find_closing key repairs [] = none
find_closing key repairs (i ∷ is) =
    let later = behind i (find_closing key repairs is) in
    elim (get_elem? repairs i) [
      | none ↦ later
      | some r ↦ if same r.target_key key then some (record { position = i; rest = is }) else later
    ]

-- `reopenClosing`.
unfoldable pub reopen_closing : String → Episodes → Option Reopened
unfolding find_closing
reopen_closing key e = if same key "" then none else find_closing key e.repairs e.closing

-- What the projector knows when it projects a turn onto its episodes.
pub record Moment : Type 0 where
  pub durability : ℕ
  pub turn_index : ℕ
  pub epoch : ℕ
  pub last_agent_seq : ℕ
  pub last_agent_time : ℕ
  pub operator_seq : ℕ
  pub operator_time : ℕ

unfoldable pub deepen : ℕ → List String → Repair → Repair
unfolding reopen merge_paths
deepen turn paths r = reopen (record r {
  target_paths = merge_paths r.target_paths paths;
  depth = r.depth + 1;
  active_index = turn;
})

unfoldable pub recur : ℕ → List String → Repair → Repair
unfolding reopen merge_paths
recur turn paths r = record (deepen turn paths r) { recurred = true }

abbrev pub append_repair : Repair → Episodes → Episodes
append_repair r e =
    let i = length e.repairs in
    open_cycle i (record e {
      repairs = e.repairs ++ r ∷ [];
      active = some i;
      repair_count = e.repair_count + 1;
    })

-- The episode that a correction in the operator's words opens.
abbrev pub corrected : Moment → Record → Result → ℕ → Repair
unfolding new_repair
corrected m rec res id =
    record (new_repair id m.epoch m.last_agent_seq rec.seq res.correction.target_type
      res.correction.target_key res.pointer.chars
      (if m.last_agent_time == 0 then rec.timestamp else m.last_agent_time)) {
        target_paths = res.correction.target_paths;
        active_index = m.turn_index;
      }

-- The part of `projectRepair` that a correction reaches with no episode open.
unfoldable pub open_or_recur : Moment → Record → Result → Episodes → Step
unfolding reopen_closing reopen merge_paths new_repair
open_or_recur m rec res e =
    let fresh = corrected m rec res (e.repair_count + 1) in
    let opening : Step =
      (append_repair fresh e, draft repair_opened derived (repair_payload fresh opened) ∷ []) in
    elim (reopen_closing res.correction.target_key e) [
      | none ↦ opening
      | some back ↦ elim (get_elem? e.repairs back.position) [
        | none ↦ opening
        | some r ↦ (
          open_cycle back.position (record e {
            repairs =
                update_at (recur m.turn_index res.correction.target_paths) back.position e.repairs;
            active = some back.position;
            closing = back.rest;
          }),
          draft repair_recurred derived
                (repair_payload (recur m.turn_index res.correction.target_paths r) recurred)
              ∷ [],
        )
      ]
    ]

abbrev pub then_step : Step → (Episodes → Step) → Step
then_step (e, ds) f = ((f e).0, ds ++ (f e).1)

-- `projectRepair` for a correction.
unfoldable pub project_correction : Moment → Record → Result → Episodes → Step
unfolding target_equivalent retire_active open_or_recur
project_correction m rec res e = elim e.active [
  | none ↦ open_or_recur m rec res e
  | some i ↦ elim (get_elem? e.repairs i) [
    | none ↦ open_or_recur m rec res e
    | some r ↦
        if target_equivalent r.target_key res.correction.target_key
        then (
          open_cycle i (change i (deepen m.turn_index res.correction.target_paths) e),
          draft repair_deepened derived
                (repair_payload (deepen m.turn_index res.correction.target_paths r) deepened)
              ∷ [],
        )
        else then_step (retire_active rec i r e) (open_or_recur m rec res)
  ]
]
