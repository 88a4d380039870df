-- ===== src/Labels/Align/Candidates.antt =====
-- The units of a family differ, and a candidate joins two of them; internal/labels/align.go.
use flow_indicator.Base.{
  ℕ, ◌+◌, ◌<◌, ◌≡◌, ◌≢◌, refl, inl, inr, String, true, false, List, [], ◌∷◌, same, ◌==◌, member,
  All, All-append, Bool-cases, arith,
}
use flow_indicator.Labels.{Label}
use flow_indicator.Labels.Align.{
  Prediction, Candidate, overlap_of, label_units, prediction_units, candidates_with, candidates_of,
}
use flow_indicator.Labels.Align.Units.{Has, indexes, Different}

label_units-above :
    (family : String) (i j : ℕ) (ls : List Label)
    → j < i
    → member j (indexes (label_units family i ls)) ≡ false
unfolding label_units
label_units-above family i j [] h = refl
label_units-above family i j (l ∷ ls) h =
    let ih = label_units-above family (i + 1) j ls (omega arith) in ground arith

pub label_units-Different :
    (family : String) (i : ℕ) (ls : List Label) → Different (label_units family i ls)
unfolding label_units
label_units-Different family i [] = tt
label_units-Different family i (l ∷ ls) = elim (Bool-cases (same l.family family)) [
  | inl ours ↦
      rw (Different, ours)
        (
          label_units-above family (i + 1) i ls (omega arith),
          label_units-Different family (i + 1) ls,
        )
  | inr theirs ↦ rw (Different, theirs) (label_units-Different family (i + 1) ls)
]

prediction_units-above :
    (family : String) (i j : ℕ) (ps : List Prediction)
    → j < i
    → member j (indexes (prediction_units family i ps)) ≡ false
unfolding prediction_units
prediction_units-above family i j [] h = refl
prediction_units-above family i j (p ∷ ps) h =
    let ih = prediction_units-above family (i + 1) j ps (omega arith) in ground arith

pub prediction_units-Different :
    (family : String) (i : ℕ) (ps : List Prediction) → Different (prediction_units family i ps)
unfolding prediction_units
prediction_units-Different family i [] = tt
prediction_units-Different family i (p ∷ ps) = elim (Bool-cases (same p.family family)) [
  | inl ours ↦
      rw (Different, ours)
        (
          prediction_units-above family (i + 1) i ps (omega arith),
          prediction_units-Different family (i + 1) ps,
        )
  | inr theirs ↦ rw (Different, theirs) (prediction_units-Different family (i + 1) ps)
]

-- A candidate names a unit of each side, of one record, that overlap.
abbrev pub IsOf : List (ℕ × Label) → List (ℕ × Prediction) → Candidate → Type 0
IsOf ls ps c =
    Has (c.li, c.label) ls
    × Has (c.pi, c.prediction) ps
    × (same c.label.record_id c.prediction.record_id ≡ true)
    × (overlap_of c.label c.prediction ≢ 0)

candidates_with-IsOf :
    (ls : List (ℕ × Label)) (ps qs : List (ℕ × Prediction)) (l : ℕ × Label)
    → Has l ls
    → All (λ q. Has q ps) qs
    → All (IsOf ls ps) (candidates_with l qs)
unfolding candidates_with
candidates_with-IsOf ls ps [] l h k = tt
candidates_with-IsOf ls ps (q ∷ qs) l h k =
    let ih = candidates_with-IsOf ls ps qs l h k.1 in
    elim (Bool-cases (same l.1.record_id q.1.record_id)) [
      | inr apart ↦ rw (All, apart) ih
      | inl together ↦ elim (Bool-cases (overlap_of l.1 q.1 == 0)) [
        | inl disjoint ↦ rw (All, together, disjoint) ih
        | inr meets ↦ rw (All, together, meets) ((h, k.0, together, ground arith), ih)
      ]
    ]

pub candidates_of-IsOf :
    (ls ms : List (ℕ × Label)) (ps : List (ℕ × Prediction))
    → All (λ m. Has m ls) ms
    → All (λ q. Has q ps) ps
    → All (IsOf ls ps) (candidates_of ms ps)
unfolding candidates_of
candidates_of-IsOf ls [] ps h k = tt
candidates_of-IsOf ls (m ∷ ms) ps h k =
    All-append (IsOf ls ps) (candidates_with m ps) (candidates_of ms ps)
      (candidates_with-IsOf ls ps ps m h.0 k) (candidates_of-IsOf ls ms ps h.1 k)
