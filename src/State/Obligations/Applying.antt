-- ===== src/State/Obligations/Applying.antt =====
-- Applying the candidates of a turn keeps the surface well formed; internal/state/obligation.go.
use flow_indicator.Base.{
  ℕ, ◌+◌, ◌≡◌, sym, ◌⊎◌, inl, inr, String, true, none, some, List, [], ◌∷◌, arith, same_iff, length,
  length-append, get_elem?, append_last_origin, append_last_keep, get_elem?-append_last, lookup,
  lookup-insert, Bool-cases, Option-cases, contains,
}
use flow_indicator.Classify.{ObligationCandidate}
use flow_indicator.State.Obligations.{
  Obligation, Obligations, Applied, seeing, first_stated, find_existing, introduce, apply_candidate,
  apply_from, apply, stands,
}
use flow_indicator.State.Obligations.Invariant.{
  IsWellFormed, matched-indexed, find_existing-fresh, restate-IsWellFormed,
}

module _ (turn epoch turn_index : ℕ) (c : ObligationCandidate) (a : Applied) where
  abbrev added : Obligations
  added = (introduce turn epoch turn_index c a).surface

  abbrev latest : Obligation
  latest = first_stated (a.surface.next + 1) turn epoch turn_index c

  introduce-latest : get_elem? added.order (length a.surface.order) ≡ some latest
  unfolding introduce
  introduce-latest =
      ground (arith, get_elem?-append_last a.surface.order latest (length a.surface.order))

  module _ (v : IsWellFormed a.surface) (fresh : lookup c.key a.surface.by_key ≡ none) where
    introduce-numbered :
        (i : ℕ) (ob : Obligation) → get_elem? added.order i ≡ some ob → ob.id ≡ i + 1
    unfolding introduce
    introduce-numbered i ob h = elim (append_last_origin a.surface.order _ i ob h) [
      | inl (e, e') ↦ ground (arith, v.counted)
      | inr e ↦ v.numbered i ob e
    ]

    -- A key that leads somewhere still leads there.
    introduce-keeps :
        (k : String) (i : ℕ) → lookup k a.surface.by_key ≡ some i → lookup k added.by_key ≡ some i
    unfolding introduce
    introduce-keeps k i h =
        ground
          (arith, lookup-insert c.key k (length a.surface.order) a.surface.by_key, same_iff c.key k)

    introduce-keeps_elem :
        (i : ℕ) (ob : Obligation)
        → get_elem? a.surface.order i ≡ some ob
        → get_elem? added.order i ≡ some ob
    unfolding introduce
    introduce-keeps_elem i ob h = append_last_keep a.surface.order latest i ob h

    introduce-own_key : lookup c.key added.by_key ≡ some (length a.surface.order)
    unfolding introduce
    introduce-own_key = ground (
      arith,
      lookup-insert c.key c.key (length a.surface.order) a.surface.by_key,
      same_iff c.key c.key,
    )

    introduce-key_origin :
        (k : String) (i : ℕ)
        → lookup k added.by_key ≡ some i
        → ((k ≡ c.key) × (i ≡ length a.surface.order)) ⊎ (lookup k a.surface.by_key ≡ some i)
    unfolding introduce
    introduce-key_origin k i h =
        ground
          (arith, lookup-insert c.key k (length a.surface.order) a.surface.by_key, same_iff c.key k)

    introduce-repeat_origin :
        (k : String) (i : ℕ)
        → lookup k added.by_repeat ≡ some i
        → ((k ≡ c.repeat_key) × (i ≡ length a.surface.order))
          ⊎ (lookup k a.surface.by_repeat ≡ some i)
    unfolding introduce
    introduce-repeat_origin k i h = ground (
      arith,
      lookup-insert c.repeat_key k (length a.surface.order) a.surface.by_repeat,
      same_iff c.repeat_key k,
    )

    introduce-key_points :
        (k : String) (i : ℕ)
        → lookup k added.by_key ≡ some i
        → (ob : Obligation) × (get_elem? added.order i ≡ some ob) × (ob.key ≡ k)
    introduce-key_points k i h = elim (introduce-key_origin k i h) [
      | inl (e, e') ↦ (latest, rw e' introduce-latest, sym e)
      | inr l ↦ let (ob, at, e) = v.key_points k i l in (ob, introduce-keeps_elem i ob at, e)
    ]

    introduce-repeat_points :
        (k : String) (i : ℕ)
        → lookup k added.by_repeat ≡ some i
        → (ob : Obligation) × (get_elem? added.order i ≡ some ob)
          × (ob.repeat_key ≡ k)
          × (lookup ob.key added.by_key ≡ some i)
    introduce-repeat_points k i h = elim (introduce-repeat_origin k i h) [
      | inl (e, e') ↦ (latest, rw e' introduce-latest, sym e, rw e' introduce-own_key)
      | inr l ↦
          let (ob, at, e, l') = v.repeat_points k i l in
          (ob, introduce-keeps_elem i ob at, e, introduce-keeps ob.key i l')
    ]

    introduce-standing :
        (i : ℕ) (ob : Obligation)
        → get_elem? added.order i ≡ some ob
        → stands ob.status ≡ true
        → lookup ob.key added.by_key ≡ some i
    unfolding introduce
    introduce-standing i ob h s = elim (append_last_origin a.surface.order _ i ob h) [
      | inl (e, e') ↦ rw (e, e') introduce-own_key
      | inr e ↦ introduce-keeps ob.key i (v.standing_indexed i ob e s)
    ]

    introduce-counted : added.next ≡ length added.order
    unfolding introduce
    introduce-counted = omega (arith, v.counted, length-append a.surface.order (latest ∷ []))

    pub introduce-IsWellFormed : IsWellFormed added
    introduce-IsWellFormed = record {
      numbered = introduce-numbered;
      counted = introduce-counted;
      key_points = introduce-key_points;
      repeat_points = introduce-repeat_points;
      standing_indexed = introduce-standing;
    }

pub apply_candidate-IsWellFormed :
    (turn epoch turn_index : ℕ) (c : ObligationCandidate) (a : Applied)
    → IsWellFormed a.surface
    → IsWellFormed (apply_candidate turn epoch turn_index c a).surface
unfolding apply_candidate
apply_candidate-IsWellFormed turn epoch turn_index c a v =
    elim (Bool-cases (contains c.key a.seen)) [
      | inl e ↦ rw e v
      | inr e ↦ elim (Option-cases (find_existing a.surface c)) [
        | inl e' ↦
            rw (e, e')
              (introduce-IsWellFormed turn epoch turn_index c (seeing c.key a) v
                (find_existing-fresh a.surface c e'))
        | inr (i, e') ↦
            rw (e, e')
              (restate-IsWellFormed turn i (seeing c.key a) v (matched-indexed a.surface c i v e'))
      ]
    ]

apply_from-IsWellFormed :
    (turn epoch turn_index : ℕ) (cs : List ObligationCandidate) (a : Applied)
    → IsWellFormed a.surface
    → IsWellFormed (apply_from turn epoch turn_index cs a).surface
unfolding apply_from
apply_from-IsWellFormed turn epoch turn_index [] a v = v
apply_from-IsWellFormed turn epoch turn_index (c ∷ cs) a v =
    apply_from-IsWellFormed turn epoch turn_index cs _
      (apply_candidate-IsWellFormed turn epoch turn_index c a v)

-- `Apply` keeps the obligation surface well formed, whatever candidates it is given.
pub apply-IsWellFormed :
    (turn epoch turn_index : ℕ) (cs : List ObligationCandidate) (o : Obligations)
    → IsWellFormed o
    → IsWellFormed (apply turn epoch turn_index cs o).surface
unfolding apply
apply-IsWellFormed turn epoch turn_index cs o v =
    apply_from-IsWellFormed turn epoch turn_index cs _ v
