-- ===== src/State/Obligations/Resolving.antt =====
-- Resolving, violating and forgetting keep the surface well formed; internal/state/obligation.go.
use flow_indicator.Base.{
  ℕ, zero, suc, ◌≡◌, refl, sym, ◌∙◌, ap, inl, inr, String, false, some, List, [], ◌∷◌, arith,
  length, get_elem?, update_at, lookup, Bool-cases, Option-cases,
}
use flow_indicator.Classify.{ResolutionKind}
use flow_indicator.State.Obligations.{
  Obligation, Obligations, ObligationStatus, resolved, resolution_status, resolve, resolve_with,
  violate, with_status, violated, stands, forget, forget_all, mark_unknown,
}
use flow_indicator.State.Obligations.Invariant.{update-IsWellFormed, IsWellFormed, KeepsIdentity}

resolve_with-KeepsIdentity : (turn : ℕ) (s : ObligationStatus) → KeepsIdentity (resolve_with turn s)
resolve_with-KeepsIdentity turn s = record {
  id = λ ob. refl;
  key = λ ob. refl;
  repeat_key = λ ob. refl;
}

with_status-KeepsIdentity : (s : ObligationStatus) → KeepsIdentity (with_status s)
with_status-KeepsIdentity s = record { id = λ ob. refl; key = λ ob. refl; repeat_key = λ ob. refl }

module _ (o : Obligations) (v : IsWellFormed o) (key : String) (i : ℕ)
    (l : lookup key o.by_key ≡ some i) where
  keyed-indexed :
      (ob : Obligation) → get_elem? o.order i ≡ some ob → lookup ob.key o.by_key ≡ some i
  keyed-indexed ob at = ground (arith, v.key_points key i l)

  keyed-IsWellFormed :
      (f : Obligation → Obligation)
      → KeepsIdentity f
      → IsWellFormed (record o { order = update_at f i o.order })
  keyed-IsWellFormed f k = update-IsWellFormed o v f k i keyed-indexed

-- `Resolve` keeps the surface well formed.
pub resolve-IsWellFormed :
    (turn : ℕ) (key : String) (kind : ResolutionKind) (o : Obligations)
    → IsWellFormed o
    → IsWellFormed (resolve turn key kind o).0
unfolding resolve
resolve-IsWellFormed turn key kind o v = elim (Option-cases (lookup key o.by_key)) [
  | inl e ↦ rw (e, resolve) v
  | inr (i, e) ↦
      let (ob, at, _) = v.key_points key i e in
      elim (Bool-cases (resolved ob.status)) [
        | inl r ↦ rw (e, resolve, at, r) v
        | inr r ↦ elim (Option-cases (resolution_status kind)) [
          | inl n ↦ rw (e, resolve, at, r, n) v
          | inr (s, n) ↦
              rw (e, resolve, at, r, n)
                (keyed-IsWellFormed o v key i e (resolve_with turn s)
                  (resolve_with-KeepsIdentity turn s))
        ]
      ]
]

pub violate-IsWellFormed :
    (key : String) (o : Obligations) → IsWellFormed o → IsWellFormed (violate key o).0
unfolding violate
violate-IsWellFormed key o v = elim (Option-cases (lookup key o.by_key)) [
  | inl e ↦ rw (e, violate) v
  | inr (i, e) ↦
      rw (e, violate)
        (keyed-IsWellFormed o v key i e (with_status violated) (with_status-KeepsIdentity violated))
]

forget-KeepsIdentity : KeepsIdentity forget
unfolding forget
forget-KeepsIdentity = record {
  id = λ ob. ground arith;
  key = λ ob. ground arith;
  repeat_key = λ ob. ground arith;
}

pub forget-not_stands : (ob : Obligation) → stands (forget ob).status ≡ false
unfolding forget
forget-not_stands ob = ground arith

pub forget_all-origin :
    (xs : List Obligation) (i : ℕ) (ob : Obligation)
    → get_elem? (forget_all xs) i ≡ some ob
    → (ob' : Obligation) × (get_elem? xs i ≡ some ob') × (ob ≡ forget ob')
forget_all-origin [] i ob h = cc
forget_all-origin (x ∷ xs) zero ob h = (x, refl, cc)
forget_all-origin (x ∷ xs) (suc i) ob h = forget_all-origin xs i ob h

length-forget_all : (xs : List Obligation) → length (forget_all xs) ≡ length xs
length-forget_all [] = refl
length-forget_all (x ∷ xs) = ap suc (length-forget_all xs)

-- `MarkUnknown` keeps the surface well formed.
pub mark_unknown-IsWellFormed : (o : Obligations) → IsWellFormed o → IsWellFormed (mark_unknown o).0
unfolding mark_unknown
mark_unknown-IsWellFormed o v = record {
  numbered = λ i ob h.
      let (ob', at, e) = forget_all-origin o.order i ob h in
      rw e (forget-KeepsIdentity.id ob' ∙ v.numbered i ob' at);
  counted = v.counted ∙ sym (length-forget_all o.order);
  key_points = λ k i h. cc;
  repeat_points = λ k i h. cc;
  standing_indexed = λ i ob h s.
      let (ob', at, e) = forget_all-origin o.order i ob h in
      cc (ap (λ (x : Obligation). stands x.status) e, forget-not_stands ob');
}
