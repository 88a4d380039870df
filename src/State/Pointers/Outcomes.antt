-- ===== src/State/Pointers/Outcomes.antt =====
-- Every compact reference gets exactly one outcome; internal/state/projector.go.
use flow_indicator.Base.{
  ℕ, suc, ◌+◌, ◌-◌, ◌≤◌, ◌<◌, ◌≡◌, ◌⊎◌, inl, inr, refl, true, Bool, false, if◌then◌else◌, List, [],
  ◌∷◌, ◌++◌, arith, length, All, All-append,
}
use flow_indicator.Classify.{Result}
use flow_indicator.State.Payloads.{Evidence}
use flow_indicator.State.Pointers.{
  PendingPointer, Pointers, count, settle_pointer, settle_pointers, resolve_pointers, finish_each,
  finish_pointers, outcomes_of, add_baseline, join_baseline, evaluated_once, keep, drop_pointers,
}

-- The references that have an outcome, and those that wait for one.
abbrev pub accounted : Pointers → ℕ
accounted q = q.succeeded + q.failed + q.no_answer + count q.pending

count-append : (xs ys : List PendingPointer) → count (xs ++ ys) ≡ count xs + count ys
count-append [] ys = omega arith
count-append (x ∷ xs) ys = omega (arith, count-append xs ys)

settle_pointer-accounted :
    (rolling last turn : ℕ) (res : Result) (pp : PendingPointer) (q : Pointers)
    → accounted (settle_pointer rolling last turn res pp q).0 ≡ suc (accounted q)
unfolding settle_pointer add_baseline
settle_pointer-accounted rolling last turn res pp q = ground (
  arith,
  count-append q.pending (pp ∷ []),
  count-append q.pending (record pp { evaluated = true; remaining = pp.remaining - 1 } ∷ []),
)

settle_pointers-accounted :
    (rolling last turn : ℕ) (res : Result) (pps : List PendingPointer) (q : Pointers)
    → accounted (settle_pointers rolling last turn res pps q).0 ≡ count pps + accounted q
unfolding settle_pointers
settle_pointers-accounted rolling last turn res [] q = omega arith
settle_pointers-accounted rolling last turn res (pp ∷ pps) q =
    let q' = (settle_pointer rolling last turn res pp q).0 in
    omega (
      arith,
      settle_pointer-accounted rolling last turn res pp q,
      settle_pointers-accounted rolling last turn res pps q',
    )

-- An operator turn loses and invents no compact reference: successes, failures, unanswered and
-- pending ones add up to the same before and after `resolvePointers`.
pub resolve_pointers-accounted :
    (rolling last turn : ℕ) (res : Result) (q : Pointers)
    → accounted (resolve_pointers rolling last turn res q).0 ≡ accounted q
unfolding resolve_pointers
resolve_pointers-accounted rolling last turn res q =
    omega
      (arith, settle_pointers-accounted rolling last turn res q.pending (record q { pending = [] }))

finish_each-accounted :
    (rolling : ℕ) (pps : List PendingPointer) (q : Pointers)
    → (accounted (finish_each rolling pps q) ≡ count pps + accounted q)
      × ((finish_each rolling pps q).pending ≡ q.pending)
unfolding finish_each add_baseline
finish_each-accounted rolling [] q = (omega arith, refl)
finish_each-accounted rolling (pp ∷ pps) q = ground (
  arith,
  finish_each-accounted rolling pps
      (join_baseline rolling pp (record q { no_answer = q.no_answer + 1 })),
)

length-outcomes_of :
    (why : Evidence) (pps : List PendingPointer) → length (outcomes_of why pps) ≡ count pps
length-outcomes_of why [] = refl
length-outcomes_of why (pp ∷ pps) = omega (arith, length-outcomes_of why pps)

-- The end of the source leaves no reference pending, counts each that was, and emits one outcome
-- for each.
pub finish_pointers-accounted :
    (rolling : ℕ) (q : Pointers)
    → ((finish_pointers rolling q).0.pending ≡ [])
      × (accounted (finish_pointers rolling q).0 ≡ accounted q)
      × (length (finish_pointers rolling q).1 ≡ count q.pending)
unfolding finish_pointers
finish_pointers-accounted rolling q =
    let (a, p) = finish_each-accounted rolling q.pending (record q { pending = [] }) in
    (p, omega arith, length-outcomes_of _ q.pending)

-- A reference from the record `since` on, or one with at most `n` operator turns left to its window.
abbrev pub Waiting : ℕ → ℕ → PendingPointer → Type 0
Waiting since n pp = (since ≤ pp.seq) ⊎ ((pp.remaining ≤ n) × (0 < n))

evaluated_once-Waiting :
    (since n : ℕ) (pp : PendingPointer)
    → 0 < pp.remaining - 1
    → Waiting since (suc n) pp
    → Waiting since n (evaluated_once pp)
evaluated_once-Waiting since n pp h w = elim w [
  | inl young ↦ inl young
  | inr (few, some_left) ↦ inr (omega arith, omega arith)
]

settle_pointer-Waiting :
    (rolling last turn since n : ℕ) (res : Result) (pp : PendingPointer) (q : Pointers)
    → since ≤ last
    → Waiting since (suc n) pp
    → All (Waiting since n) q.pending
    → All (Waiting since n) (settle_pointer rolling last turn res pp q).0.pending
unfolding settle_pointer add_baseline
settle_pointer-Waiting rolling last turn since n res pp q h w a =
    let kept : last ≤ pp.seq → All (Waiting since n) (q.pending ++ pp ∷ []) =
      λ k. All-append (Waiting since n) q.pending (pp ∷ []) a (inl (omega arith), tt) in
    let once : 0 < pp.remaining - 1 → All (Waiting since n) (q.pending ++ evaluated_once pp ∷ []) =
      λ k.
        All-append (Waiting since n) q.pending (evaluated_once pp ∷ []) a
          (evaluated_once-Waiting since n pp k w, tt) in
    ground (arith, kept, once)

settle_pointers-Waiting :
    (rolling last turn since n : ℕ) (res : Result) (pps : List PendingPointer) (q : Pointers)
    → since ≤ last
    → All (Waiting since (suc n)) pps
    → All (Waiting since n) q.pending
    → All (Waiting since n) (settle_pointers rolling last turn res pps q).0.pending
unfolding settle_pointers
settle_pointers-Waiting rolling last turn since n res [] q h w a = a
settle_pointers-Waiting rolling last turn since n res (pp ∷ pps) q h (w, ws) a =
    settle_pointers-Waiting rolling last turn since n res pps
      (settle_pointer rolling last turn res pp q).0 h ws
      (settle_pointer-Waiting rolling last turn since n res pp q h w a)

resolve_pointers-Waiting :
    (rolling last turn since n : ℕ) (res : Result) (q : Pointers)
    → since ≤ last
    → All (Waiting since (suc n)) q.pending
    → All (Waiting since n) (resolve_pointers rolling last turn res q).0.pending
unfolding resolve_pointers
resolve_pointers-Waiting rolling last turn since n res q h w =
    settle_pointers-Waiting rolling last turn since n res q.pending (record q { pending = [] }) h w
      tt

-- An operator turn, with the reference that its record would be.
pub record OperatorTurn : Type 0 where
  pub last_agent_seq : ℕ
  pub turn_index : ℕ
  pub result : Result
  pub reference : PendingPointer

-- What `projectOperator` does to the pending references: it resolves those that are there, adds the
-- turn's own, and drops them all on a reset.
abbrev pub take_turn : ℕ → OperatorTurn → Pointers → Pointers
unfolding drop_pointers
take_turn rolling t q =
    let resolved = (resolve_pointers rolling t.last_agent_seq t.turn_index t.result q).0 in
    let added = if t.result.pointer.is_pointer then keep t.reference resolved else resolved in
    if t.result.reset then (drop_pointers added).0 else added

abbrev pub take_turns : ℕ → List OperatorTurn → Pointers → Pointers
take_turns rolling [] q = q
take_turns rolling (t ∷ ts) q = take_turns rolling ts (take_turn rolling t q)

-- The turn comes after an agent's record that is not before `since`, and is not before it itself.
abbrev pub IsLater : ℕ → OperatorTurn → Type 0
IsLater since t = (since ≤ t.last_agent_seq) × (since ≤ t.reference.seq)

either-Waiting :
    (since n : ℕ) (b : Bool) (q q' : Pointers)
    → All (Waiting since n) q.pending
    → All (Waiting since n) q'.pending
    → All (Waiting since n) (if b then q else q').pending
either-Waiting since n true q q' w w' = w
either-Waiting since n false q q' w w' = w'

take_turn-Waiting :
    (rolling since n : ℕ) (t : OperatorTurn) (q : Pointers)
    → IsLater since t
    → All (Waiting since (suc n)) q.pending
    → All (Waiting since n) (take_turn rolling t q).pending
unfolding take_turn drop_pointers
take_turn-Waiting rolling since n t q (late, young) w =
    let resolved = (resolve_pointers rolling t.last_agent_seq t.turn_index t.result q).0 in
    let a =
      resolve_pointers-Waiting rolling t.last_agent_seq t.turn_index since n t.result q late w in
    let more = All-append (Waiting since n) resolved.pending (t.reference ∷ []) a (inl young, tt) in
    let own = t.result.pointer.is_pointer in
    either-Waiting since n t.result.reset _ (if own then keep t.reference resolved else resolved) tt
      (either-Waiting since n own (keep t.reference resolved) resolved more a)

Waiting-young :
    (since : ℕ) (pps : List PendingPointer)
    → All (Waiting since 0) pps
    → All (λ pp. since ≤ pp.seq) pps
Waiting-young since [] a = tt
Waiting-young since (pp ∷ pps) (w, a) = (
  elim w [ inl young ↦ young | inr (few, none_left) ↦ absurd (omega (arith, none_left)) ],
  Waiting-young since pps a,
)

-- If every pending reference from before a record has at most as many operator turns left to its
-- window as operator turns follow, at least one, and these turns and an agent's record before each
-- are not before that record, then after them no reference from before it is pending, whatever
-- the turns say: a turn may bring a reference of its own or end the epoch.
pub take_turns-settle :
    (rolling since : ℕ) (ts : List OperatorTurn) (q : Pointers)
    → All (IsLater since) ts
    → All (Waiting since (length ts)) q.pending
    → All (λ pp. since ≤ pp.seq) (take_turns rolling ts q).pending
take_turns-settle rolling since [] q l w = Waiting-young since q.pending w
take_turns-settle rolling since (t ∷ ts) q (l, ls) w =
    take_turns-settle rolling since ts (take_turn rolling t q) ls
      (take_turn-Waiting rolling since (length ts) t q l w)
