-- ===== src/State/Pointers/Baseline.antt =====
-- The control baseline stays within its window; internal/state/projector.go.
use flow_indicator.Base.{ℕ, ◌+◌, ◌≤◌, List, [], ◌∷◌, arith, length, length-push_bounded-le}
use flow_indicator.Classify.{Result}
use flow_indicator.State.Pointers.{
  PendingPointer, Pointers, add_baseline, join_baseline, settle_pointer, settle_pointers,
  resolve_pointers, finish_each, finish_pointers,
}

-- The baseline holds no more turns than the rolling window.
abbrev pub IsBounded : ℕ → Pointers → Type 0
IsBounded rolling q = length q.baseline ≤ rolling

pub add_baseline-IsBounded :
    (rolling chars : ℕ) (q : Pointers) → IsBounded rolling (add_baseline rolling chars q)
unfolding add_baseline
add_baseline-IsBounded rolling chars q = length-push_bounded-le rolling q.baseline chars

settle_pointer-IsBounded :
    (rolling last turn : ℕ) (res : Result) (pp : PendingPointer) (q : Pointers)
    → IsBounded rolling q
    → IsBounded rolling (settle_pointer rolling last turn res pp q).0
unfolding settle_pointer add_baseline
settle_pointer-IsBounded rolling last turn res pp q b =
    ground (arith, length-push_bounded-le rolling q.baseline pp.turn_chars)

settle_pointers-IsBounded :
    (rolling last turn : ℕ) (res : Result) (pps : List PendingPointer) (q : Pointers)
    → IsBounded rolling q
    → IsBounded rolling (settle_pointers rolling last turn res pps q).0
unfolding settle_pointers
settle_pointers-IsBounded rolling last turn res [] q b = b
settle_pointers-IsBounded rolling last turn res (pp ∷ pps) q b =
    settle_pointers-IsBounded rolling last turn res pps
      (settle_pointer rolling last turn res pp q).0
      (settle_pointer-IsBounded rolling last turn res pp q b)

finish_each-IsBounded :
    (rolling : ℕ) (pps : List PendingPointer) (q : Pointers)
    → IsBounded rolling q
    → IsBounded rolling (finish_each rolling pps q)
unfolding finish_each add_baseline
finish_each-IsBounded rolling [] q b = b
finish_each-IsBounded rolling (pp ∷ pps) q b =
    finish_each-IsBounded rolling pps
      (join_baseline rolling pp (record q { no_answer = q.no_answer + 1 }))
      (ground (arith, length-push_bounded-le rolling q.baseline pp.turn_chars))

-- A control baseline within the rolling window stays within it when `resolvePointers` or the end
-- of the source adds the turns of settled references.
pub resolve_pointers-IsBounded :
    (rolling last turn : ℕ) (res : Result) (q : Pointers)
    → IsBounded rolling q
    → IsBounded rolling (resolve_pointers rolling last turn res q).0
      × IsBounded rolling (finish_pointers rolling q).0
unfolding resolve_pointers finish_pointers
resolve_pointers-IsBounded rolling last turn res q b = (
  settle_pointers-IsBounded rolling last turn res q.pending (record q { pending = [] }) b,
  finish_each-IsBounded rolling q.pending (record q { pending = [] }) b,
)
