-- ===== src/State/Obligations/Lifecycle.antt =====
-- What becomes of a requirement: stated, restated, resolved, revived; internal/state/obligation.go.
use flow_indicator.Base.{
  ℕ, zero, suc, ◌+◌, ◌≡◌, refl, ◌∙◌, inl, inr, String, Bool, true, false, some, List, [], ◌∷◌,
  arith, length, get_elem?, update_at, update_at_hit, lookup, Option-cases,
}
use flow_indicator.Classify.{ObligationCandidate, ResolutionKind}
use flow_indicator.State.Obligations.{
  Obligation, Obligations, ObligationStatus, mark_repeat, apply, nothing_applied, resolve,
  resolve_with, stands, resolved, resolution_status, forget, forget_all, ids_of, mark_unknown,
  unresolved, standing, unresolved_candidates,
}
use flow_indicator.State.Obligations.Invariant.{IsWellFormed}
use flow_indicator.State.Obligations.Resolving.{forget-not_stands}

-- On a well-formed surface, two obligations that stand and have the same key are the same
-- obligation.
pub one_standing_per_key :
    (o : Obligations) (i j : ℕ) (a b : Obligation)
    → IsWellFormed o
    → get_elem? o.order i ≡ some a
    → get_elem? o.order j ≡ some b
    → stands a.status ≡ true
    → stands b.status ≡ true
    → a.key ≡ b.key
    → i ≡ j
one_standing_per_key o i j a b v ha hb sa sb e =
    cc (v.standing_indexed i a ha sa, v.standing_indexed j b hb sb)

standing-forget_all : (xs : List Obligation) → standing (forget_all xs) ≡ []
unfolding standing
standing-forget_all [] = refl
standing-forget_all (x ∷ xs) = rw (forget-not_stands x) (standing-forget_all xs)

forget_all-keeps :
    (xs : List Obligation) (i : ℕ) (ob : Obligation)
    → get_elem? xs i ≡ some ob
    → stands ob.status ≡ false
    → get_elem? (forget_all xs) i ≡ some ob
unfolding forget
forget_all-keeps [] i ob h s = h
forget_all-keeps (x ∷ xs) zero ob h s = let e : x ≡ ob = cc in rw (e, s)
forget_all-keeps (x ∷ xs) (suc i) ob h s = forget_all-keeps xs i ob h s

abbrev one_if : Bool → ℕ
one_if true = 1
one_if false = 0

length-standing-update_at :
    (f : Obligation → Obligation) (i : ℕ) (xs : List Obligation) (ob : Obligation)
    → get_elem? xs i ≡ some ob
    → length (standing (update_at f i xs)) + one_if (stands ob.status)
      ≡ length (standing xs) + one_if (stands (f ob).status)
unfolding standing
length-standing-update_at f i [] ob h = cc
length-standing-update_at f zero (x ∷ xs) ob h = let e : x ≡ ob = cc in rw (← e) (ground arith)
length-standing-update_at f (suc i) (x ∷ xs) ob h =
    ground (arith, length-standing-update_at f i xs ob h)

-- What `resolve` did when it reports a position.
pub resolve-Resolved :
    (turn : ℕ) (key : String) (kind : ResolutionKind) (o : Obligations) (i : ℕ)
    → (resolve turn key kind o).1 ≡ some i
    → (ob : Obligation) × (s : ObligationStatus) × (lookup key o.by_key ≡ some i)
      × (get_elem? o.order i ≡ some ob)
      × (resolved ob.status ≡ false)
      × (resolution_status kind ≡ some s)
      × ((resolve turn key kind o).0
          ≡ record o { order = update_at (resolve_with turn s) i o.order })
unfolding resolve
resolve-Resolved turn key kind o i h = elim (Option-cases (lookup key o.by_key)) [
  | inl e ↦ absurd (ground arith)
  | inr (j, e) ↦ elim (Option-cases (get_elem? o.order j)) [
    | inl n ↦ absurd (ground arith)
    | inr (ob, at) ↦ elim (Option-cases (resolution_status kind)) [
      | inl n ↦ absurd (ground arith)
      | inr (s, k) ↦ (ob, s, ground arith, ground arith, ground arith, k, ground arith)
    ]
  ]
]

-- When `Resolve` reports an obligation that stood, exactly one obligation fewer is unresolved
-- after it.
pub resolve-standing :
    (turn : ℕ) (key : String) (kind : ResolutionKind) (o : Obligations) (i : ℕ) (ob : Obligation)
    → (resolve turn key kind o).1 ≡ some i
    → get_elem? o.order i ≡ some ob
    → stands ob.status ≡ true
    → length (unresolved_candidates o)
      ≡ suc (length (unresolved_candidates (resolve turn key kind o).0))
unfolding unresolved_candidates resolution_status
resolve-standing turn key kind o i ob h at st =
    let (ob', s, _, _, _, k, e) = resolve-Resolved turn key kind o i h in
    rw e (ground (arith, length-standing-update_at (resolve_with turn s) i o.order ob at))

-- A single candidate whose key leads to a resolved obligation revives it.
apply-revives :
    (turn epoch turn_index i : ℕ) (c : ObligationCandidate) (o : Obligations) (ob : Obligation)
    → lookup c.key o.by_key ≡ some i
    → get_elem? o.order i ≡ some ob
    → resolved ob.status ≡ true
    → apply turn epoch turn_index (c ∷ []) o ≡ record (nothing_applied o) {
      surface = record o { order = update_at (mark_repeat turn) i o.order };
      seen = c.key ∷ [];
      revived = record { obligation = i; from = ob.status } ∷ [];
    }
unfolding apply
apply-revives turn epoch turn_index i c o ob l at r = rw (l, apply, at, r)

resolution_status-resolved :
    (kind : ResolutionKind) {s : ObligationStatus}
    → resolution_status kind ≡ some s
    → resolved s ≡ true
unfolding resolution_status resolved
resolution_status-resolved kind h = ground arith

-- A candidate with the key of an obligation that `Resolve` just resolved introduces and repeats
-- nothing: it revives that obligation, reports the status it had been given, and leaves it
-- unresolved with one repeat more.
pub restated_after_resolve :
    (turn later epoch turn_index : ℕ) (kind : ResolutionKind) (c : ObligationCandidate)
    (o : Obligations) (i : ℕ) (ob : Obligation)
    → (resolve turn c.key kind o).1 ≡ some i
    → get_elem? o.order i ≡ some ob
    → let a = apply later epoch turn_index (c ∷ []) (resolve turn c.key kind o).0 in
      (a.introduced ≡ [])
      × (a.repeated ≡ [])
      × ((s : ObligationStatus) × (resolution_status kind ≡ some s)
          × (a.revived ≡ record { obligation = i; from = s } ∷ []))
      × (get_elem? a.surface.order i
          ≡ some (record ob {
            status = unresolved;
            repeat_count = ob.repeat_count + 1;
            last_repeat_turn = later;
            resolved_turn = turn;
          }))
unfolding mark_repeat
restated_after_resolve turn later epoch turn_index kind c o i ob h at =
    let (ob', s, l, _, _, k, e) = resolve-Resolved turn c.key kind o i h in
    let resolved_ob = resolve_with turn s ob in
    let hit = update_at_hit (resolve_with turn s) i o.order ob at in
    let r = resolution_status-resolved kind k in
    let changed : Obligations = record o { order = update_at (resolve_with turn s) i o.order } in
    let again = apply-revives later epoch turn_index i c changed resolved_ob l hit r in
    rw (e, again)
      (
        refl,
        refl,
        (s, k, refl),
        update_at_hit (mark_repeat later) i changed.order resolved_ob hit ∙ rw r,
      )

-- `MarkUnknown` leaves nothing unresolved, returns the ids of what was in order, and does not
-- touch an obligation that did not stand.
pub mark_unknown-standing :
    (o : Obligations)
    → (unresolved_candidates (mark_unknown o).0 ≡ [])
      × ((mark_unknown o).1 ≡ ids_of (unresolved_candidates o))
      × ((i : ℕ) (ob : Obligation)
          → get_elem? o.order i ≡ some ob
          → stands ob.status ≡ false
          → get_elem? (mark_unknown o).0.order i ≡ some ob)
unfolding mark_unknown
mark_unknown-standing o =
    (standing-forget_all o.order, refl, λ i ob at s. forget_all-keeps o.order i ob at s)
