-- ===== src/Tests/Sessions.antt =====
-- Short sessions pushed through the projector.
use flow_indicator.Base.{
  ℕ, ◌≡◌, refl, Bool, true, false, Option, none, some, List, [], ◌∷◌, get_elem?, is_some, ◌<◌, ltb,
  arith,
}
use flow_indicator.Stream.{Record, is_operator_turn, write_targets}
use flow_indicator.Classify.{Input, Answer}
use flow_indicator.State.Repair.{Repair}
use flow_indicator.State.Payloads.{repair_payload, repair_status_payload}
use flow_indicator.State.Times.{InYears, nanoseconds, ClosedInYears, IsTimed, IsEncoder}
use flow_indicator.State.Obligations.{Obligation, stands}
use flow_indicator.State.Log.{say}
use flow_indicator.State.Projector.Turn.{trend_drafts}
use flow_indicator.State.Projector.Defs.{Projector, new_projector}
use flow_indicator.State.Projector.Push.{push, run, finish}
use flow_indicator.State.Projector.Invariant.{IsSound}
use flow_indicator.State.Projector.Soundness.{run-IsSound, finish-IsSound, run_one_standing}
use flow_indicator.State.Projector.Panics.Total.{run_total}
use flow_indicator.State.Projector.Stamped.{StampedPass, push-IsStamped}
use flow_indicator.State.Projector.Bounded.{IsWithinWindow, run-IsWithinWindow}
use flow_indicator.Tests.Data.{
  encoder, in_time, is_closed_in_time, setup, request, reply, complaint, answering, plain,
  correcting, demanding, short_candidate,
}

abbrev session : List ((Input → Answer) × Record)
session =
    (answering demanding, request)
    ∷ (answering plain, reply)
    ∷ (answering correcting, complaint)
    ∷ []

abbrev start : Projector
start = new_projector setup "s"

-- What the session leaves: one obligation that stands and one open episode.
abbrev after : Projector
after = elim (run setup session start) [ none ↦ start | some q ↦ q ]

-- An agent that writes before the first operator turn makes `Push` panic.
reply_panics : push setup (answering plain) reply start ≡ none
unfolding push new_projector is_operator_turn write_targets
reply_panics = refl

-- A correction after year 9999 opens an episode that json.Marshal refuses.
late_panics :
    push setup (answering correcting) (record complaint { timestamp = nanoseconds }) start ≡ none
unfolding push new_projector is_operator_turn write_targets say trend_drafts
late_panics = refl

request_is_turn : is_operator_turn request ≡ true
unfolding is_operator_turn
request_is_turn = refl

-- The encoder of the tests takes every payload with times in their years.
fit_time : (t : ℕ) → InYears t → ltb t nanoseconds ≡ true
unfolding InYears
fit_time t h = ground (arith, h)

fit_closed : (c : Option ℕ) → ClosedInYears c → is_closed_in_time c ≡ true
fit_closed none h = refl
fit_closed (some t) h = fit_time t h

fit_repair : (r : Repair) → IsTimed r → in_time r ≡ true
fit_repair r (a, b, c) =
    rw (fit_time r.start a, fit_time r.last_activity b, fit_closed r.closed c) refl

encoder-IsEncoder : IsEncoder encoder
encoder-IsEncoder (repair_payload r l) h = fit_repair r h
encoder-IsEncoder (repair_status_payload r s w) h = fit_repair r h
encoder-IsEncoder _ h = refl

early : (t : ℕ) → t < 100 → InYears t
unfolding InYears
early t h = omega arith

run_total_example : is_some (run setup session start) ≡ true
run_total_example =
    run_total setup "s" (answering demanding) request
      ((answering plain, reply) ∷ (answering correcting, complaint) ∷ []) encoder-IsEncoder
      (early 10 (omega arith), (early 20 (omega arith), (early 30 (omega arith), tt)))
      request_is_turn

or_default-some :
    {A : Type 0} (o : Option A) (d : A)
    → is_some o ≡ true
    → o ≡ some (elim o [ none ↦ d | some q ↦ q ])
or_default-some none d h = cc
or_default-some (some q) d h = refl

session_runs : run setup session start ≡ some after
session_runs = or_default-some (run setup session start) start run_total_example

run-IsSound_example : IsSound after
run-IsSound_example = run-IsSound setup "s" session after session_runs

push-IsStamped_example : StampedPass encoder (push setup (answering correcting) complaint after)
push-IsStamped_example = push-IsStamped setup (answering correcting) complaint after

after-IsSound : IsSound after
after-IsSound = run-IsSound setup "s" session after session_runs

finish-IsSound_example : IsSound (finish setup after).projector
finish-IsSound_example = finish-IsSound setup after after-IsSound

-- One record that opens an episode and states a requirement.
abbrev brief : List ((Input → Answer) × Record)
brief = (answering (record correcting { obligations = short_candidate ∷ [] }), request) ∷ []

abbrev after_brief : Projector
after_brief = elim (run setup brief start) [ none ↦ start | some q ↦ q ]

brief_runs : run setup brief start ≡ some after_brief
brief_runs = or_default-some (run setup brief start) start (
    run_total setup "s" (answering (record correcting { obligations = short_candidate ∷ [] }))
      request [] encoder-IsEncoder (early 10 (omega arith), tt) request_is_turn)

abbrev stated : Option Obligation
stated = get_elem? after_brief.obligations.order 0

abbrev is_stated : Option Obligation → Bool
is_stated none = false
is_stated (some ob) = stands ob.status

stated_stands : is_stated stated ≡ true
unfolding run new_projector is_operator_turn write_targets stands say trend_drafts
stated_stands = refl

is_stated-some :
    (o : Option Obligation)
    → is_stated o ≡ true
    → (ob : Obligation) × (o ≡ some ob) × (stands ob.status ≡ true)
is_stated-some none h = cc
is_stated-some (some ob) h = (ob, refl, h)

the_stated : (ob : Obligation) × (stated ≡ some ob) × (stands ob.status ≡ true)
the_stated = is_stated-some stated stated_stands

run_one_standing_example : ◌≡◌ {A = ℕ} 0 0
run_one_standing_example =
    run_one_standing setup "s" brief after_brief 0 0 (the_stated.0) (the_stated.0) brief_runs
      (the_stated.1) (the_stated.1) (the_stated.2) (the_stated.2) refl

run-IsWithinWindow_example : IsWithinWindow setup after
run-IsWithinWindow_example = run-IsWithinWindow setup "s" session after session_runs
