-- ===== src/State/Pointers.antt =====
-- internal/state/projector.go: compact references that wait for their outcome.
pub mod Outcomes
pub mod Baseline
use flow_indicator.Base.{
  ℕ, suc, ◌+◌, ◌-◌, String, Bool, true, false, not, ◌&&◌, ◌||◌, List, [], ◌∷◌, ◌++◌, ltb, leb,
  if◌then◌else◌, push_bounded,
}
use flow_indicator.Classify.{Result, chars_in, forward}
use flow_indicator.Event.{derived, pointer_resolved}
use flow_indicator.State.Episodes.{target_equivalent}
use flow_indicator.State.Payloads.{
  Draft, draft, Outcome, Evidence, success, failure, unknown, pointer_outcome_payload,
  first_response_corrected, first_response_accepted, later_correction_named, window_closed,
  epoch_closed, source_closed,
}

pub record PendingPointer : Type 0 where
  pub seq : ℕ
  pub turn_index : ℕ
  pub key : String
  pub pointer_type : String
  pub pointer_chars : ℕ
  pub turn_chars : ℕ
  pub remaining : ℕ
  pub baseline : Bool
  pub evaluated : Bool

-- The pointer fields of `Projector`, with the two rolling lists that their outcomes reach.
pub record Pointers : Type 0 where
  pub pending : List PendingPointer
  pub succeeded : ℕ
  pub failed : ℕ
  pub no_answer : ℕ
  pub failures : List ℕ
  pub baseline : List ℕ

abbrev pub no_pointers : Pointers
no_pointers = record {
  pending = [];
  succeeded = 0;
  failed = 0;
  no_answer = 0;
  failures = [];
  baseline = [];
}

abbrev pub outcome : PendingPointer → Outcome → Evidence → Draft
outcome pp o why =
    draft pointer_resolved derived (pointer_outcome_payload pp.seq pp.pointer_type o why)

-- `addBaseline`.
unfoldable pub add_baseline : ℕ → ℕ → Pointers → Pointers
unfolding push_bounded
add_baseline rolling chars q = record q { baseline = push_bounded rolling q.baseline chars }

-- `if pp.baseline { p.addBaseline(pp.turnChars) }`.
abbrev pub join_baseline : ℕ → PendingPointer → Pointers → Pointers
unfolding add_baseline
join_baseline rolling pp q = if pp.baseline then add_baseline rolling pp.turn_chars q else q

abbrev pub keep : PendingPointer → Pointers → Pointers
keep pp q = record q { pending = q.pending ++ pp ∷ [] }

abbrev pub fail_at : ℕ → Pointers → Pointers
fail_at turn q = record q { failed = q.failed + 1; failures = q.failures ++ turn ∷ [] }

abbrev pub evaluated_once : PendingPointer → PendingPointer
evaluated_once pp = record pp { evaluated = true; remaining = pp.remaining - 1 }

abbrev pub Settled : Type 0
Settled = Pointers × List Draft

-- The body of the loop of `resolvePointers`; `pending` collects what is kept.
unfoldable pub settle_pointer : ℕ → ℕ → ℕ → Result → PendingPointer → Pointers → Settled
unfolding target_equivalent add_baseline chars_in
settle_pointer rolling last_agent_seq turn res pp q =
    let positive = res.acceptance || ltb 0 (chars_in res forward) in
    let own = not pp.evaluated in
    let corrects = res.correction.is_correction in
    let named = corrects && target_equivalent pp.key res.correction.target_key in
    if leb last_agent_seq pp.seq
    then (keep pp q, [])
    else if own && corrects
    then (fail_at turn q, outcome pp failure first_response_corrected ∷ [])
    else if own && positive
    then (
      join_baseline rolling pp (record q { succeeded = q.succeeded + 1 }),
      outcome pp success first_response_accepted ∷ [],
    )
    else if named
    then (fail_at turn q, outcome pp failure later_correction_named ∷ [])
    else if ltb 0 (pp.remaining - 1)
    then (keep (evaluated_once pp) q, [])
    else (
      join_baseline rolling pp (record q { no_answer = q.no_answer + 1 }),
      outcome pp unknown window_closed ∷ [],
    )

unfoldable pub settle_pointers : ℕ → ℕ → ℕ → Result → List PendingPointer → Pointers → Settled
unfolding settle_pointer
settle_pointers rolling last_agent_seq turn res [] q = (q, [])
settle_pointers rolling last_agent_seq turn res (pp ∷ pps) q =
    let (q', ds) = settle_pointer rolling last_agent_seq turn res pp q in
    let (q'', ds') = settle_pointers rolling last_agent_seq turn res pps q' in (q'', ds ++ ds')

-- `resolvePointers`.
unfoldable pub resolve_pointers : ℕ → ℕ → ℕ → Result → Pointers → Settled
unfolding settle_pointers
resolve_pointers rolling last_agent_seq turn res q =
    settle_pointers rolling last_agent_seq turn res q.pending (record q { pending = [] })

abbrev pub outcomes_of : Evidence → List PendingPointer → List Draft
outcomes_of why [] = []
outcomes_of why (pp ∷ pps) = outcome pp unknown why ∷ outcomes_of why pps

abbrev pub count : List PendingPointer → ℕ
count [] = 0
count (pp ∷ pps) = suc (count pps)

-- The part of `applyReset` that reaches the pointers.
unfoldable pub drop_pointers : Pointers → Settled
drop_pointers q = (
  record q { pending = []; no_answer = q.no_answer + count q.pending },
  outcomes_of epoch_closed q.pending,
)

unfoldable pub finish_each : ℕ → List PendingPointer → Pointers → Pointers
unfolding add_baseline
finish_each rolling [] q = q
finish_each rolling (pp ∷ pps) q =
    finish_each rolling pps (join_baseline rolling pp (record q { no_answer = q.no_answer + 1 }))

-- The part of `Finish` that reaches the pointers.
unfoldable pub finish_pointers : ℕ → Pointers → Settled
unfolding finish_each
finish_pointers rolling q =
    (finish_each rolling q.pending (record q { pending = [] }), outcomes_of source_closed q.pending)
