-- ===== src/Labels/Align/Partition.antt =====
-- Alignment puts every label and every prediction in one pair; internal/labels/align.go.
use flow_indicator.Base.{
  ℕ, ◌+◌, ◌≡◌, ◌≢◌, refl, inl, inr, String, false, ◌||◌, Option, none, some, List, [], ◌∷◌, ◌++◌,
  member, All, All-append, same_iff, sort_stable, total, total-sort_stable, total-append,
  All-sort_stable, Bool-cases, arith,
}
use flow_indicator.Labels.{Label}
use flow_indicator.Labels.Align.{
  Prediction, Pair, Candidate, overlap_of, label_units, prediction_units, candidates_of,
  ranks_before, take_greedily, add_pair, unmatched_labels, unmatched_predictions, key_before,
  matched_units, align,
}
use flow_indicator.Labels.Align.Units.{Has, Different, unused, unused_present, unused_nothing}
use flow_indicator.Labels.Align.Candidates.{
  label_units-Different, prediction_units-Different, IsOf, candidates_of-IsOf,
}

-- A weight of labels or predictions, read from a pair: 0 where that side is absent.
abbrev pub weight {ℓ} : {A : Type ℓ} → (A → ℕ) → Option A → ℕ
weight f none = 0
weight f (some a) = f a

abbrev pub on_label : (Label → ℕ) → Pair → ℕ
on_label f p = weight f p.label

abbrev pub on_prediction : (Prediction → ℕ) → Pair → ℕ
on_prediction f p = weight f p.prediction

-- A pair of two sides joins units of one record that overlap.
abbrev pub Fits : Pair → Type 0
Fits p =
    (l : Label) (q : Prediction)
    → p.label ≡ some l
    → p.prediction ≡ some q
    → (l.record_id ≡ q.record_id) × (overlap_of l q ≢ 0)

module _ (ls : List (ℕ × Label)) (ps : List (ℕ × Prediction)) where
  take_greedily-labels :
      (f : Label → ℕ) (cs : List Candidate) (ul up : List ℕ)
      → Different ls
      → All (IsOf ls ps) cs
      → total (on_label f) (take_greedily cs ul up).pairs
          + unused f (take_greedily cs ul up).used_labels ls
        ≡ unused f ul ls
  unfolding take_greedily
  take_greedily-labels f [] ul up d a = omega arith
  take_greedily-labels f (c ∷ cs) ul up d a = elim (Bool-cases (member c.li ul || member c.pi up)) [
    | inl taken ↦
        let e : take_greedily (c ∷ cs) ul up ≡ take_greedily cs ul up =
          rw (take_greedily, taken) refl in
        rw e (take_greedily-labels f cs ul up d a.1)
    | inr free ↦
        let ih = take_greedily-labels f cs (c.li ∷ ul) (c.pi ∷ up) d a.1 in
        let apart : member c.li ul ≡ false = ground arith in
        let moved = unused_present f (c.li, c.label) ul ls d a.0.0 apart in
        let t = take_greedily cs (c.li ∷ ul) (c.pi ∷ up) in
        let e : take_greedily (c ∷ cs) ul up
            ≡ add_pair (record { label = some c.label; prediction = some c.prediction }) t =
          rw (take_greedily, free) refl in
        rw e (omega (arith, ih, moved))
  ]

  take_greedily-predictions :
      (f : Prediction → ℕ) (cs : List Candidate) (ul up : List ℕ)
      → Different ps
      → All (IsOf ls ps) cs
      → total (on_prediction f) (take_greedily cs ul up).pairs
          + unused f (take_greedily cs ul up).used_predictions ps
        ≡ unused f up ps
  unfolding take_greedily
  take_greedily-predictions f [] ul up d a = omega arith
  take_greedily-predictions f (c ∷ cs) ul up d a =
      elim (Bool-cases (member c.li ul || member c.pi up)) [
        | inl taken ↦
            let e : take_greedily (c ∷ cs) ul up ≡ take_greedily cs ul up =
              rw (take_greedily, taken) refl in
            rw e (take_greedily-predictions f cs ul up d a.1)
        | inr free ↦
            let ih = take_greedily-predictions f cs (c.li ∷ ul) (c.pi ∷ up) d a.1 in
            let apart : member c.pi up ≡ false = ground arith in
            let moved = unused_present f (c.pi, c.prediction) up ps d a.0.1 apart in
            let t = take_greedily cs (c.li ∷ ul) (c.pi ∷ up) in
            let e : take_greedily (c ∷ cs) ul up
                ≡ add_pair (record { label = some c.label; prediction = some c.prediction }) t =
              rw (take_greedily, free) refl in
            rw e (omega (arith, ih, moved))
      ]

  take_greedily-Fits :
      (cs : List Candidate) (ul up : List ℕ)
      → All (IsOf ls ps) cs
      → All Fits (take_greedily cs ul up).pairs
  unfolding take_greedily
  take_greedily-Fits [] ul up a = tt
  take_greedily-Fits (c ∷ cs) ul up a = elim (Bool-cases (member c.li ul || member c.pi up)) [
    | inl taken ↦ rw (All, taken) (take_greedily-Fits cs ul up a.1)
    | inr free ↦
        rw (All, free)
          (
            λ l q el eq.
                let l' : c.label ≡ l = cc in
                let q' : c.prediction ≡ q = cc in
                rw (← l', ← q')
                  ((same_iff c.label.record_id c.prediction.record_id).0 a.0.2, a.0.3),
            take_greedily-Fits cs (c.li ∷ ul) (c.pi ∷ up) a.1,
          )
  ]

unmatched_labels-total :
    (f : Label → ℕ) (g : Prediction → ℕ) (ls : List (ℕ × Label)) (used : List ℕ)
    → (total (on_label f) (unmatched_labels ls used) ≡ unused f used ls)
      × (total (on_prediction g) (unmatched_labels ls used) ≡ 0)
unfolding unmatched_labels
unmatched_labels-total f g [] used = (refl, refl)
unmatched_labels-total f g (l ∷ ls) used =
    let ih = unmatched_labels-total f g ls used in ground arith

unmatched_predictions-total :
    (f : Label → ℕ) (g : Prediction → ℕ) (ps : List (ℕ × Prediction)) (used : List ℕ)
    → (total (on_label f) (unmatched_predictions ps used) ≡ 0)
      × (total (on_prediction g) (unmatched_predictions ps used) ≡ unused g used ps)
unfolding unmatched_predictions
unmatched_predictions-total f g [] used = (refl, refl)
unmatched_predictions-total f g (p ∷ ps) used =
    let ih = unmatched_predictions-total f g ps used in ground arith

unmatched_labels-Fits :
    (ls : List (ℕ × Label)) (used : List ℕ) → All Fits (unmatched_labels ls used)
unfolding unmatched_labels
unmatched_labels-Fits [] used = tt
unmatched_labels-Fits (l ∷ ls) used = elim (Bool-cases (member l.0 used)) [
  | inl taken ↦ rw (All, taken) (unmatched_labels-Fits ls used)
  | inr free ↦ rw (All, free) ((λ l' q el eq. cc), unmatched_labels-Fits ls used)
]

unmatched_predictions-Fits :
    (ps : List (ℕ × Prediction)) (used : List ℕ) → All Fits (unmatched_predictions ps used)
unfolding unmatched_predictions
unmatched_predictions-Fits [] used = tt
unmatched_predictions-Fits (p ∷ ps) used = elim (Bool-cases (member p.0 used)) [
  | inl taken ↦ rw (All, taken) (unmatched_predictions-Fits ps used)
  | inr free ↦ rw (All, free) ((λ l' q el eq. cc), unmatched_predictions-Fits ps used)
]

Has-more :
    {A : Type 0} (x : ℕ × A) (xs ys : List (ℕ × A))
    → All (λ y. Has y xs) ys
    → All (λ y. Has y (x ∷ xs)) ys
Has-more x xs [] h = tt
Has-more x xs (y ∷ ys) h = (inr h.0, Has-more x xs ys h.1)

All-Has : {A : Type 0} (xs : List (ℕ × A)) → All (λ x. Has x xs) xs
All-Has [] = tt
All-Has (x ∷ xs) = (inl refl, Has-more x xs xs (All-Has xs))

-- In the pairs that `Align` returns, every label and every prediction of the family occurs
-- exactly once: any weight adds up to the same over the pairs as over the family's labels, and
-- over its predictions; and a label and a prediction in one pair are of the same record and
-- overlap.
pub align-partition :
    (f : Label → ℕ) (g : Prediction → ℕ) (ls : List Label) (ps : List Prediction) (family : String)
    → (total (on_label f) (align ls ps family) ≡ total (λ l. f l.1) (label_units family 0 ls))
      × (total (on_prediction g) (align ls ps family)
          ≡ total (λ p. g p.1) (prediction_units family 0 ps))
      × All Fits (align ls ps family)
unfolding align matched_units
align-partition f g ls ps family =
    let us = label_units family 0 ls in
    let vs = prediction_units family 0 ps in
    let cs = sort_stable ranks_before (candidates_of us vs) in
    let of_units =
      All-sort_stable (IsOf us vs) ranks_before (candidates_of us vs)
        (candidates_of-IsOf us us vs (All-Has us) (All-Has vs)) in
    let t = take_greedily cs [] [] in
    let ul = unmatched_labels us t.used_labels in
    let up = unmatched_predictions vs t.used_predictions in
    let l = unmatched_labels-total f g us t.used_labels in
    let p = unmatched_predictions-total f g vs t.used_predictions in
    (
      omega (
        arith,
        total-sort_stable (on_label f) key_before (matched_units us vs),
        total-append (on_label f) (t.pairs ++ ul) up,
        total-append (on_label f) t.pairs ul,
        l.0,
        p.0,
        take_greedily-labels us vs f cs [] [] (label_units-Different family 0 ls) of_units,
        unused_nothing f us,
      ),
      omega (
        arith,
        total-sort_stable (on_prediction g) key_before (matched_units us vs),
        total-append (on_prediction g) (t.pairs ++ ul) up,
        total-append (on_prediction g) t.pairs ul,
        l.1,
        p.1,
        take_greedily-predictions us vs g cs [] [] (prediction_units-Different family 0 ps)
            of_units,
        unused_nothing g vs,
      ),
      All-sort_stable Fits key_before (matched_units us vs) (
          All-append Fits (t.pairs ++ ul) up
            (All-append Fits t.pairs ul (take_greedily-Fits us vs cs [] [] of_units)
              (unmatched_labels-Fits us t.used_labels))
            (unmatched_predictions-Fits vs t.used_predictions)),
    )
