-- ===== src/Tests/Classifiers.antt =====
-- The marker classifier and the pool on small inputs.
use flow_indicator.Base.{
  ◌+◌, ◌-◌, ◌≡◌, ◌≤◌, ◌⊎◌, refl, String, true, none, some, List, [], ◌∷◌, arith, length, All,
  contains,
}
use flow_indicator.Classify.{ObligationRef}
use flow_indicator.Classify.Heuristic.{classify}
use flow_indicator.Classify.Heuristic.Guards.{WritesNamed, classify-repaired}
use flow_indicator.Classify.Heuristic.Releases.{releases}
use flow_indicator.Classify.Heuristic.Releases.Once.{
  ref_keys, released_keys, Different, releases_once,
}
use flow_indicator.Classify.Worker.{
  Identity, Worker, started, new_worker, fresh, submit, begin_close, settle, Steps, stop, next,
  submits, closes, returns, settles,
}
use flow_indicator.Classify.Worker.Counting.{concluded, pool_accounts}
use flow_indicator.Tests.Data.{request, reply}
use flow_indicator.Tests.Rules.{env, rules, short_ref, input_of}

abbrev refs : List ObligationRef
refs = short_ref ∷ []

abbrev withdrawn : String
withdrawn = "forget to keep it short. forget to keep it short"

releases_once_example :
    All (λ r. contains r.key (ref_keys refs) ≡ true) (releases env rules withdrawn refs)
    × Different (released_keys (releases env rules withdrawn refs))
releases_once_example = releases_once env rules withdrawn refs

one_released : released_keys (releases env rules withdrawn refs) ≡ "keep it short" ∷ []
unfolding releases
one_released = refl

classify-repaired_example :
    ((classify env rules (input_of reply)).repair.target_repaired ≡ none)
    ⊎ (WritesNamed (input_of reply)
        × ((classify env rules (input_of reply)).repair.target_repaired ≡ some true))
classify-repaired_example = classify-repaired env rules (input_of reply)

repaired_by_write : (classify env rules (input_of reply)).repair.target_repaired ≡ some true
unfolding classify
repaired_by_write = refl

abbrev model : Identity
model = record {
  name = "model";
  version = "1";
  hash = "0";
  json = λ inp. inp.turn.text;
  sha256 = λ t. t;
  decimal = λ n. "0";
}

-- A job is queued, and the pool is closed before any goroutine takes it.
abbrev pool : Worker
pool = fresh model 1 2

abbrev queued : Worker
queued = (submit "s" 0 (input_of request) pool).0

abbrev shut : Worker
shut = begin_close queued

abbrev idle : Worker
idle = record shut { live = shut.live - 1 }

history : Steps pool (settle idle)
unfolding submit begin_close
history = next pool queued (settle idle) (submits pool "s" 0 (input_of request)) (
    next queued shut (settle idle) (closes queued) (
      next shut idle (settle idle) (returns shut refl (omega arith))
        (next idle (settle idle) (settle idle) (settles idle refl refl) (stop (settle idle)))))

started-pool : new_worker (some model) 1 2 ≡ started pool
unfolding new_worker
started-pool = refl

pool_accounts_example :
    ((settle idle).stats.requested ≡ concluded (settle idle).stats + (settle idle).stats.pending)
    × ((settle idle).stats.pending ≤ 3)
    × ((settle idle).ended ≡ true → (settle idle).stats.pending ≡ 0)
    × (length (settle idle).latency ≤ 256)
pool_accounts_example = pool_accounts (some model) 1 2 pool (settle idle) started-pool history

one_canceled : (settle idle).stats.canceled ≡ 1
unfolding settle submit begin_close
one_canceled = refl
