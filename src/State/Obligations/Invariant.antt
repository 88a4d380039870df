-- ===== src/State/Obligations/Invariant.antt =====
-- The well-formedness of an obligation surface; internal/state/obligation.go.
use flow_indicator.Base.{
  ℕ, ◌+◌, ◌≡◌, refl, sym, ◌∙◌, ◌⊎◌, inl, inr, String, true, none, some, arith, length, get_elem?,
  update_at, length-update_at, update_at_origin, get_elem?-update_at, ◌==◌, lookup, Bool-cases,
}
use flow_indicator.Classify.{ObligationCandidate}
use flow_indicator.State.Obligations.{
  Obligation, Obligations, Applied, new_obligations, find_existing, mark_repeat, restate, stands,
}

-- Positions and indices agree: ids number the store, both maps point at obligations that carry
-- the key, and a candidate that stands is the one that its key leads to.
pub record IsWellFormed (o : Obligations) : Type 0 where
  pub numbered : (i : ℕ) (ob : Obligation) → get_elem? o.order i ≡ some ob → ob.id ≡ i + 1
  pub counted : o.next ≡ length o.order
  pub key_points :
      (k : String) (i : ℕ)
      → lookup k o.by_key ≡ some i
      → (ob : Obligation) × (get_elem? o.order i ≡ some ob) × (ob.key ≡ k)
  pub repeat_points :
      (k : String) (i : ℕ)
      → lookup k o.by_repeat ≡ some i
      → (ob : Obligation) × (get_elem? o.order i ≡ some ob)
        × (ob.repeat_key ≡ k)
        × (lookup ob.key o.by_key ≡ some i)
  pub standing_indexed :
      (i : ℕ) (ob : Obligation)
      → get_elem? o.order i ≡ some ob
      → stands ob.status ≡ true
      → lookup ob.key o.by_key ≡ some i

pub new_obligations-IsWellFormed : IsWellFormed new_obligations
unfolding new_obligations
new_obligations-IsWellFormed = record {
  numbered = λ i ob h. cc;
  counted = refl;
  key_points = λ k i h. cc;
  repeat_points = λ k i h. cc;
  standing_indexed = λ i ob h s. cc;
}

-- A change that leaves the identity of every obligation alone.
pub record KeepsIdentity (f : Obligation → Obligation) : Type 0 where
  pub id : (ob : Obligation) → (f ob).id ≡ ob.id
  pub key : (ob : Obligation) → (f ob).key ≡ ob.key
  pub repeat_key : (ob : Obligation) → (f ob).repeat_key ≡ ob.repeat_key

module _ (o : Obligations) (v : IsWellFormed o) (f : Obligation → Obligation) (k : KeepsIdentity f)
    (i : ℕ) where
  abbrev changed : Obligations
  changed = record o { order = update_at f i o.order }

  update-points :
      (j : ℕ) (ob : Obligation)
      → get_elem? o.order j ≡ some ob
      → (ob' : Obligation) × (get_elem? changed.order j ≡ some ob')
        × (ob'.key ≡ ob.key)
        × (ob'.repeat_key ≡ ob.repeat_key)
  update-points j ob h = elim (Bool-cases (i == j)) [
    | inl e ↦ (f ob, ground (arith, get_elem?-update_at f i j o.order), k.key ob, k.repeat_key ob)
    | inr e ↦ (ob, ground (arith, get_elem?-update_at f i j o.order), refl, refl)
  ]

  update-key_points :
      (q : String) (j : ℕ)
      → lookup q o.by_key ≡ some j
      → (ob : Obligation) × (get_elem? changed.order j ≡ some ob) × (ob.key ≡ q)
  update-key_points q j h =
      let (ob, at, e) = v.key_points q j h in
      let (ob', at', e', _) = update-points j ob at in (ob', at', e' ∙ e)

  update-repeat_points :
      (q : String) (j : ℕ)
      → lookup q o.by_repeat ≡ some j
      → (ob : Obligation) × (get_elem? changed.order j ≡ some ob)
        × (ob.repeat_key ≡ q)
        × (lookup ob.key o.by_key ≡ some j)
  update-repeat_points q j h =
      let (ob, at, e, l) = v.repeat_points q j h in
      let (ob', at', e', r') = update-points j ob at in (ob', at', r' ∙ e, rw e' l)

  -- In place, an obligation that its key leads to may change its status and counts at will.
  pub update-IsWellFormed :
      ((ob : Obligation) → get_elem? o.order i ≡ some ob → lookup ob.key o.by_key ≡ some i)
      → IsWellFormed changed
  update-IsWellFormed indexed = record {
    numbered = λ j ob h.
        let (ob₀, at, d) = update_at_origin f i j o.order ob h in
        ground (arith, v.numbered j ob₀ at, k.id ob₀);
    counted = v.counted ∙ sym (length-update_at f i o.order);
    key_points = update-key_points;
    repeat_points = update-repeat_points;
    standing_indexed = λ j ob h s.
        let (ob₀, at, d) = update_at_origin f i j o.order ob h in
        elim d [
          | inl (e, e') ↦ rw (e', k.key ob₀, ← e) (indexed ob₀ (rw e at))
          | inr (_, e') ↦ rw e' (v.standing_indexed j ob₀ at (rw e' at s))
        ];
  }

mark_repeat-KeepsIdentity : (turn : ℕ) → KeepsIdentity (mark_repeat turn)
unfolding mark_repeat
mark_repeat-KeepsIdentity turn = record {
  id = λ ob. refl;
  key = λ ob. refl;
  repeat_key = λ ob. refl;
}

find_existing-origin :
    (o : Obligations) (c : ObligationCandidate) (i : ℕ)
    → find_existing o c ≡ some i
    → (lookup c.key o.by_key ≡ some i) ⊎ (lookup c.repeat_key o.by_repeat ≡ some i)
unfolding find_existing
find_existing-origin o c i h = ground arith

-- The position that a candidate is matched to holds an obligation that its own key leads to.
pub find_existing-indexed :
    (o : Obligations) (c : ObligationCandidate) (i : ℕ)
    → IsWellFormed o
    → find_existing o c ≡ some i
    → (ob : Obligation) × (get_elem? o.order i ≡ some ob) × (lookup ob.key o.by_key ≡ some i)
find_existing-indexed o c i v h = elim (find_existing-origin o c i h) [
  | inl e ↦ let (ob, at, k) = v.key_points c.key i e in (ob, at, rw k e)
  | inr e ↦ let (ob, at, _, l) = v.repeat_points c.repeat_key i e in (ob, at, l)
]

pub matched-indexed :
    (o : Obligations) (c : ObligationCandidate) (i : ℕ)
    → IsWellFormed o
    → find_existing o c ≡ some i
    → (ob : Obligation) → get_elem? o.order i ≡ some ob
    → lookup ob.key o.by_key ≡ some i
matched-indexed o c i v h ob at =
    let (ob', at', l) = find_existing-indexed o c i v h in ground arith

pub find_existing-fresh :
    (o : Obligations) (c : ObligationCandidate)
    → find_existing o c ≡ none
    → (lookup c.key o.by_key ≡ none)
unfolding find_existing
find_existing-fresh o c h = ground arith

pub restate-IsWellFormed :
    (turn i : ℕ) (a : Applied)
    → IsWellFormed a.surface
    → ((ob : Obligation)
        → get_elem? a.surface.order i ≡ some ob
        → lookup ob.key a.surface.by_key ≡ some i)
    → IsWellFormed (restate turn i a).surface
unfolding restate
restate-IsWellFormed turn i a v indexed = ground (
  arith,
  update-IsWellFormed a.surface v (mark_repeat turn) (mark_repeat-KeepsIdentity turn) i indexed,
)
