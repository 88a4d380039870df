-- ===== src/Tests/Parts.antt =====
-- The episodes, the references, the obligations, the regimes and the trends on small inputs.
use flow_indicator.Base.{
  ℕ, suc, ◌+◌, ◌≡◌, ◌≤◌, ◌≢◌, refl, inr, true, false, some, [], ◌∷◌, arith, get_elem?, length, All,
  replicate,
}
use flow_indicator.Floats.{exact, literal}
use flow_indicator.Metrics.{good, bad, unmeasured, known, unknown}
use flow_indicator.Metrics.Snapshot.{RegimeRule}
use flow_indicator.Classify.{Result, released}
use flow_indicator.State.Regime.{RegimeInput, decide}
use flow_indicator.State.Regime.Rules.{
  Compared, regime_of, precedence, decide-Compared, decide_first,
}
use flow_indicator.State.Trend.{forward_work_share, TrendState, observe_metric}
use flow_indicator.State.Trend.Crossing.{
  IsPending, settled, crossed, observe_metric-IsPending, observe_metric-reports, run-crosses, run,
}
use flow_indicator.State.Obligations.{
  Obligation, Obligations, ObligationStatus, apply, new_obligations, resolve, resolution_status,
  unresolved_candidates, unresolved, stands, mark_unknown, ids_of,
}
use flow_indicator.State.Obligations.Invariant.{IsWellFormed, new_obligations-IsWellFormed}
use flow_indicator.State.Obligations.Applying.{apply-IsWellFormed}
use flow_indicator.State.Obligations.Lifecycle.{
  resolve-standing, restated_after_resolve, mark_unknown-standing,
}
use flow_indicator.State.Obligations.Outcomes.{apply-outcomes, distinct_keys}
use flow_indicator.State.Episodes.Store.{Episodes, no_episodes, project_agent_cycle}
use flow_indicator.State.Episodes.Settle.{settle_durability}
use flow_indicator.State.Episodes.Turn.{project_repair}
use flow_indicator.State.Episodes.Ending.{reset_episodes}
use flow_indicator.State.Episodes.Invariant.{IsConsistent, no_episodes-IsConsistent}
use flow_indicator.State.Episodes.Reopening.{project_repair-IsConsistent}
use flow_indicator.State.Episodes.Closing.{
  settle_durability-IsConsistent, reset_episodes-IsConsistent,
}
use flow_indicator.State.Pointers.{
  PendingPointer, Pointers, no_pointers, resolve_pointers, finish_pointers, count,
}
use flow_indicator.State.Pointers.Outcomes.{
  accounted, OperatorTurn, take_turns, resolve_pointers-accounted, finish_pointers-accounted,
  take_turns-settle,
}
use flow_indicator.State.Projector.Soundness.{project_agent_cycle-IsConsistent}
use flow_indicator.Tests.Data.{config, request, complaint, plain, correcting, short_candidate, now}

abbrev opened : Episodes
opened = (project_repair now request correcting no_episodes).0

project_repair-IsConsistent_example : IsConsistent opened
project_repair-IsConsistent_example =
    project_repair-IsConsistent now request correcting no_episodes no_episodes-IsConsistent

-- The agent answers, and the operator goes on: the episode is closed for now.
abbrev closed : Episodes
closed = (project_repair now complaint plain (project_agent_cycle 2 plain opened)).0

closed-IsConsistent : IsConsistent closed
closed-IsConsistent =
    project_repair-IsConsistent now complaint plain (project_agent_cycle 2 plain opened) (
      project_agent_cycle-IsConsistent 2 plain opened
        (project_repair-IsConsistent now request correcting no_episodes no_episodes-IsConsistent))

one_closing : closed.closing ≡ 0 ∷ []
unfolding project_repair project_agent_cycle
one_closing = refl

settle_durability-IsConsistent_example : IsConsistent (settle_durability 1 3 closed).0
settle_durability-IsConsistent_example =
    settle_durability-IsConsistent 1 3 closed closed-IsConsistent

reset_episodes-IsConsistent_example : IsConsistent (reset_episodes complaint closed).0
reset_episodes-IsConsistent_example =
    reset_episodes-IsConsistent complaint closed closed-IsConsistent

abbrev reference : PendingPointer
reference = record {
  seq = 1;
  turn_index = 1;
  key = "that file";
  pointer_type = "path";
  pointer_chars = 9;
  turn_chars = 12;
  remaining = 2;
  baseline = true;
  evaluated = false;
}

abbrev one_pending : Pointers
one_pending = record no_pointers { pending = reference ∷ [] }

abbrev silent : Result
silent = record plain { segments = [] }

resolve_pointers-accounted_example :
    accounted (resolve_pointers 4 2 2 silent one_pending).0 ≡ accounted one_pending
resolve_pointers-accounted_example = resolve_pointers-accounted 4 2 2 silent one_pending

-- A turn that refers to something, and one that does not.
abbrev referring : OperatorTurn
referring = record {
  last_agent_seq = 2;
  turn_index = 2;
  result = record silent { pointer = record (silent.pointer) { is_pointer = true } };
  reference = record reference { seq = 3; turn_index = 2 };
}

abbrev quiet : OperatorTurn
quiet = record referring { last_agent_seq = 4; turn_index = 3; result = silent }

take_turns-settle_example :
    All (λ pp. 2 ≤ pp.seq) (take_turns 4 (referring ∷ quiet ∷ []) one_pending).pending
take_turns-settle_example =
    take_turns-settle 4 2 (referring ∷ quiet ∷ []) one_pending
      ((omega arith, omega arith), ((omega arith, omega arith), tt))
      (inr (omega arith, omega arith), tt)

finish_pointers-accounted_example :
    ((finish_pointers 4 one_pending).0.pending ≡ [])
    × (accounted (finish_pointers 4 one_pending).0 ≡ accounted one_pending)
    × (length (finish_pointers 4 one_pending).1 ≡ count one_pending.pending)
finish_pointers-accounted_example = finish_pointers-accounted 4 one_pending

abbrev one_stated : Obligations
one_stated = (apply 1 0 1 (short_candidate ∷ []) new_obligations).surface

apply-IsWellFormed_example : IsWellFormed one_stated
apply-IsWellFormed_example =
    apply-IsWellFormed 1 0 1 (short_candidate ∷ []) new_obligations new_obligations-IsWellFormed

one_stated-IsWellFormed : IsWellFormed one_stated
one_stated-IsWellFormed =
    apply-IsWellFormed 1 0 1 (short_candidate ∷ []) new_obligations new_obligations-IsWellFormed

abbrev short : Obligation
short = record {
  id = 1;
  introduced_turn = 1;
  source_text = "keep it short";
  key = "keep it short";
  repeat_key = "short";
  kind = "constraint";
  status = unresolved;
  repeat_count = 0;
  last_repeat_turn = 0;
  epoch = 0;
  resolved_turn = 0;
  introduced_index = 1;
}

short_is_first : get_elem? one_stated.order 0 ≡ some short
unfolding apply new_obligations
short_is_first = refl

short_stands : stands unresolved ≡ true
unfolding stands
short_stands = refl

short_resolves : (resolve 2 "keep it short" released one_stated).1 ≡ some 0
unfolding apply new_obligations resolve
short_resolves = refl

apply-outcomes_example :
    length (apply 2 0 2 (short_candidate ∷ short_candidate ∷ []) one_stated).introduced
      + length (apply 2 0 2 (short_candidate ∷ short_candidate ∷ []) one_stated).repeated
      + length (apply 2 0 2 (short_candidate ∷ short_candidate ∷ []) one_stated).revived
    ≡ distinct_keys [] (short_candidate ∷ short_candidate ∷ [])
apply-outcomes_example =
    apply-outcomes 2 0 2 (short_candidate ∷ short_candidate ∷ []) one_stated one_stated-IsWellFormed

resolve-standing_example :
    length (unresolved_candidates one_stated)
    ≡ suc (length (unresolved_candidates (resolve 2 "keep it short" released one_stated).0))
resolve-standing_example =
    resolve-standing 2 "keep it short" released one_stated 0 short short_resolves short_is_first
      short_stands

abbrev Again : Type 0
Again =
    let a = apply 3 0 2 (short_candidate ∷ []) (resolve 2 "keep it short" released one_stated).0 in
    (a.introduced ≡ [])
    × (a.repeated ≡ [])
    × ((s : ObligationStatus) × (resolution_status released ≡ some s)
        × (a.revived ≡ record { obligation = 0; from = s } ∷ []))
    × (get_elem? a.surface.order 0
        ≡ some (record short {
          status = unresolved;
          repeat_count = 1;
          last_repeat_turn = 3;
          resolved_turn = 2;
        }))

restated_after_resolve_example : Again
restated_after_resolve_example =
    restated_after_resolve 2 3 0 2 released short_candidate one_stated 0 short short_resolves
      short_is_first

mark_unknown-standing_example :
    (unresolved_candidates (mark_unknown one_stated).0 ≡ [])
    × ((mark_unknown one_stated).1 ≡ ids_of (unresolved_candidates one_stated))
    × ((i : ℕ) (ob : Obligation)
        → get_elem? one_stated.order i ≡ some ob
        → stands ob.status ≡ false
        → get_elem? (mark_unknown one_stated).0.order i ≡ some ob)
mark_unknown-standing_example = mark_unknown-standing one_stated

abbrev thrashing_input : RegimeInput
thrashing_input = record {
  is_reset = false;
  repair_open = true;
  repair_depth = 3;
  repair_chars = 40;
  baseline = known (literal 10 1);
  serialization_inflation = unknown;
  forward_share = unknown;
  repeated_unresolved_obligations = 0;
  recent_corrections = 1;
  recent_interrupts = 0;
  recent_dereference_failure = 0;
  recent_obligation_repeats = 0;
  thresholds = config.thresholds;
}

decide-Compared_example :
    Compared exact thrashing_input (decide exact thrashing_input).rule
    × ((decide exact thrashing_input).regime ≡ regime_of (decide exact thrashing_input).rule)
decide-Compared_example = decide-Compared exact thrashing_input

decide_first_example :
    precedence (decide exact thrashing_input).rule ≤ precedence RegimeRule.recovery_open
decide_first_example = decide_first exact thrashing_input RegimeRule.recovery_open (refl, refl)

abbrev nearly : TrendState
nearly = record { confirmed = good; candidate = bad; held = 1 }

nearly-IsPending : IsPending 2 nearly
nearly-IsPending = record {
  short = inr (omega arith);
  other = inr (λ e. cc);
  none_yet = λ e. cc;
  unconfirmed = λ e. cc;
}

nearly_crosses :
    (observe_metric 2 forward_work_share bad nearly).1
    ≡ some (crossed forward_work_share good bad 2)
unfolding observe_metric
nearly_crosses = refl

observe_metric-IsPending_example : IsPending 2 (observe_metric 2 forward_work_share bad nearly).0
observe_metric-IsPending_example =
    observe_metric-IsPending 2 forward_work_share bad nearly nearly-IsPending

observe_metric-reports_example :
    (forward_work_share ≡ forward_work_share)
    × (good ≡ good)
    × (bad ≡ bad)
    × (good ≢ unmeasured)
    × (bad ≢ unmeasured)
    × (good ≢ bad)
    × (◌≡◌ {A = ℕ} 2 2)
    × ((observe_metric 2 forward_work_share bad nearly).0
        ≡ record { confirmed = bad; candidate = unmeasured; held = 0 })
observe_metric-reports_example =
    observe_metric-reports 2 forward_work_share bad nearly (crossed forward_work_share good bad 2)
      nearly-IsPending (omega arith) nearly_crosses

bad-measured : bad ≢ unmeasured
bad-measured e = cc

good-measured : good ≢ unmeasured
good-measured e = cc

bad-good : bad ≢ good
bad-good e = cc

run-crosses_example :
    run 2 forward_work_share (replicate 2 bad) (settled good)
    ≡ (settled bad, crossed forward_work_share good bad 2 ∷ [])
run-crosses_example = run-crosses 1 forward_work_share good bad bad-measured good-measured bad-good
