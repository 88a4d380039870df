-- ===== src/State/Obligations/Outcomes.antt =====
-- Every candidate of a turn has one outcome; internal/state/obligation.go.
use flow_indicator.Base.{
  ℕ, suc, ◌+◌, ◌≡◌, refl, inl, inr, String, true, false, some, List, [], ◌∷◌, arith, if◌then◌else◌,
  length, length-append, get_elem?, Bool-cases, Option-cases, contains,
}
use flow_indicator.Classify.{ObligationCandidate}
use flow_indicator.State.Obligations.{
  Obligation, Obligations, Applied, find_existing, restate, introduce, apply_candidate, apply_from,
  apply, nothing_applied, seeing,
}
use flow_indicator.State.Obligations.Invariant.{IsWellFormed, find_existing-indexed}
use flow_indicator.State.Obligations.Applying.{apply_candidate-IsWellFormed}

-- How many different keys a turn's candidates carry, those already seen left out.
unfoldable pub distinct_keys : List String → List ObligationCandidate → ℕ
distinct_keys seen [] = 0
distinct_keys seen (c ∷ cs) =
    let rest = distinct_keys (c.key ∷ seen) cs in
    if contains c.key seen then distinct_keys seen cs else suc rest

abbrev outcomes : Applied → ℕ
outcomes a = length a.introduced + length a.repeated + length a.revived

restate-outcomes :
    (turn i : ℕ) (a : Applied) (ob : Obligation)
    → get_elem? a.surface.order i ≡ some ob
    → (outcomes (restate turn i a) ≡ suc (outcomes a)) × ((restate turn i a).seen ≡ a.seen)
unfolding restate
restate-outcomes turn i a ob at = ground (
  arith,
  length-append a.repeated (i ∷ []),
  length-append a.revived (record { obligation = i; from = ob.status } ∷ []),
)

introduce-outcomes :
    (turn epoch turn_index : ℕ) (c : ObligationCandidate) (a : Applied)
    → (outcomes (introduce turn epoch turn_index c a) ≡ suc (outcomes a))
      × ((introduce turn epoch turn_index c a).seen ≡ a.seen)
unfolding introduce
introduce-outcomes turn epoch turn_index c a =
    (omega (arith, length-append a.introduced (length a.surface.order ∷ [])), refl)

new_candidate-outcomes :
    (turn epoch turn_index : ℕ) (c : ObligationCandidate) (a : Applied)
    → IsWellFormed a.surface
    → contains c.key a.seen ≡ false
    → (outcomes (apply_candidate turn epoch turn_index c a) ≡ suc (outcomes a))
      × ((apply_candidate turn epoch turn_index c a).seen ≡ c.key ∷ a.seen)
unfolding apply_candidate
new_candidate-outcomes turn epoch turn_index c a v f =
    elim (Option-cases (find_existing a.surface c)) [
      | inl e ↦ rw (f, e) (introduce-outcomes turn epoch turn_index c (seeing c.key a))
      | inr (i, e) ↦
          let (ob, at, _) = find_existing-indexed a.surface c i v e in
          rw (f, e) (restate-outcomes turn i (seeing c.key a) ob at)
    ]

seen_candidate :
    (turn epoch turn_index : ℕ) (c : ObligationCandidate) (a : Applied)
    → contains c.key a.seen ≡ true
    → apply_candidate turn epoch turn_index c a ≡ a
unfolding apply_candidate
seen_candidate turn epoch turn_index c a e = rw e

apply_from-cons :
    (turn epoch turn_index : ℕ) (c : ObligationCandidate) (cs : List ObligationCandidate)
    (a : Applied)
    → apply_from turn epoch turn_index (c ∷ cs) a
      ≡ apply_from turn epoch turn_index cs (apply_candidate turn epoch turn_index c a)
unfolding apply_from
apply_from-cons turn epoch turn_index c cs a = refl

distinct_keys-old :
    (seen : List String) (c : ObligationCandidate) (cs : List ObligationCandidate)
    → contains c.key seen ≡ true
    → distinct_keys seen (c ∷ cs) ≡ distinct_keys seen cs
unfolding distinct_keys
distinct_keys-old seen c cs e = rw e

distinct_keys-new :
    (seen : List String) (c : ObligationCandidate) (cs : List ObligationCandidate)
    → contains c.key seen ≡ false
    → distinct_keys seen (c ∷ cs) ≡ suc (distinct_keys (c.key ∷ seen) cs)
unfolding distinct_keys
distinct_keys-new seen c cs e = rw e

apply_from-outcomes :
    (turn epoch turn_index : ℕ) (cs : List ObligationCandidate) (a : Applied)
    → IsWellFormed a.surface
    → outcomes (apply_from turn epoch turn_index cs a) ≡ outcomes a + distinct_keys a.seen cs
unfolding apply_from distinct_keys
apply_from-outcomes turn epoch turn_index [] a v = omega arith
apply_from-outcomes turn epoch turn_index (c ∷ cs) a v = elim (Bool-cases (contains c.key a.seen)) [
  | inl e ↦
      rw
        (
          apply_from-cons turn epoch turn_index c cs a,
          seen_candidate turn epoch turn_index c a e,
          distinct_keys-old a.seen c cs e,
        )
        (apply_from-outcomes turn epoch turn_index cs a v)
  | inr e ↦
      let (n, s) = new_candidate-outcomes turn epoch turn_index c a v e in
      let ih =
        apply_from-outcomes turn epoch turn_index cs (apply_candidate turn epoch turn_index c a)
          (apply_candidate-IsWellFormed turn epoch turn_index c a v) in
      rw (apply_from-cons turn epoch turn_index c cs a, distinct_keys-new a.seen c cs e)
        (omega (arith, rw s at ih, n))
]

-- On a well-formed surface, each different key among the candidates of a turn has exactly one
-- outcome: introduced, repeated and revived add up to the number of different keys.
pub apply-outcomes :
    (turn epoch turn_index : ℕ) (cs : List ObligationCandidate) (o : Obligations)
    → IsWellFormed o
    → let a = apply turn epoch turn_index cs o in
      length a.introduced + length a.repeated + length a.revived ≡ distinct_keys [] cs
unfolding apply
apply-outcomes turn epoch turn_index cs o v =
    omega (arith, apply_from-outcomes turn epoch turn_index cs (nothing_applied o) v)
