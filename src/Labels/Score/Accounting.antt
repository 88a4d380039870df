-- ===== src/Labels/Score/Accounting.antt =====
-- Every label of a family is counted once in its score; internal/labels/score.go, align.go.
use flow_indicator.Base.{
  ℕ, ◌+◌, ◌≡◌, refl, inl, inr, String, Bool, true, false, Option, none, some, List, [], ◌∷◌, same,
  if◌then◌else◌, total, Bool-cases, arith,
}
use flow_indicator.Floats.{Floats}
use flow_indicator.Labels.{Label, in_table, positives, unlabelable as unlabelable_value}
use flow_indicator.Labels.Align.{Prediction, Pair, align, label_units}
use flow_indicator.Labels.Align.Partition.{on_label, align-partition}
use flow_indicator.Labels.Score.{
  Tally, Confusion, judge, undecided, no_tally, score_pair, tally, evaluate,
}

-- 1 for a label that the codebook could not decide, that it could, that is of the positive class.
abbrev pub undecided_weight : Label → ℕ
undecided_weight l = if same l.label unlabelable_value then 1 else 0

abbrev pub decided_weight : Label → ℕ
decided_weight l = if same l.label unlabelable_value then 0 else 1

abbrev pub positive_weight : String → Label → ℕ
positive_weight family l =
    if same l.label unlabelable_value then 0 else if in_table positives family l.label then 1 else 0

-- What one pair adds to the counts.
record IsStep (family : String) (p : Pair) (t t' : Tally) : Type 0 where
  balance :
      t'.true_positives + t'.false_positives + t'.false_negatives + t'.true_negatives + t.labeled
      ≡ t.true_positives + t.false_positives + t.false_negatives + t.true_negatives + t'.labeled
  decided : t'.labeled ≡ t.labeled + on_label decided_weight p
  undecided : t'.unlabelable ≡ t.unlabelable + on_label undecided_weight p
  positive :
      t'.true_positives + t'.false_negatives
      ≡ t.true_positives + t.false_negatives + on_label (positive_weight family) p

abbrev pair_of : Option Label → Option Prediction → Pair
pair_of label prediction = record { label = label; prediction = prediction }

judge-counts :
    (lp pp : Bool) (t : Tally)
    → let t' = judge lp pp t in
      (t'.labeled ≡ t.labeled)
      × (t'.unlabelable ≡ t.unlabelable)
      × (t'.true_positives + t'.false_positives + t'.false_negatives + t'.true_negatives
          ≡ t.true_positives + t.false_positives + t.false_negatives + t.true_negatives + 1)
      × (t'.true_positives + t'.false_negatives
          ≡ t.true_positives + t.false_negatives + (if lp then 1 else 0))
judge-counts true true t = (refl, refl, omega arith, omega arith)
judge-counts true false t = (refl, refl, omega arith, omega arith)
judge-counts false true t = (refl, refl, omega arith, omega arith)
judge-counts false false t = (refl, refl, omega arith, omega arith)

-- A label that can be decided is judged once.
judge-IsStep :
    (family : String) (l : Label) (prediction : Option Prediction) (pp : Bool) (c : Confusion)
    (t : Tally)
    → same l.label unlabelable_value ≡ false
    → IsStep family (pair_of (some l) prediction) t (
        judge
          (in_table positives family l.label)
          pp
          (record t { labeled = t.labeled + 1; confusion = c }))
judge-IsStep family l prediction pp c t closed =
    let lp = in_table positives family l.label in
    let (a, b, d, e) = judge-counts lp pp (record t { labeled = t.labeled + 1; confusion = c }) in
    let w1 : decided_weight l ≡ 1 = rw (decided_weight, closed) refl in
    let w2 : undecided_weight l ≡ 0 = rw (undecided_weight, closed) refl in
    let w3 : positive_weight family l ≡ (if lp then 1 else 0) = rw (positive_weight, closed) refl in
    record {
      balance = omega (arith, a, d);
      decided = omega (arith, a, w1);
      undecided = omega (arith, b, w2);
      positive = omega (arith, e, w3);
    }

undecided-IsStep :
    (family : String) (l : Label) (prediction : Option Prediction) (t : Tally)
    → same l.label unlabelable_value ≡ true
    → IsStep family (pair_of (some l) prediction) t (undecided t)
undecided-IsStep family l prediction t open_unit =
    let w1 : decided_weight l ≡ 0 = rw (decided_weight, open_unit) refl in
    let w2 : undecided_weight l ≡ 1 = rw (undecided_weight, open_unit) refl in
    let w3 : positive_weight family l ≡ 0 = rw (positive_weight, open_unit) refl in
    record {
      balance = omega arith;
      decided = omega (arith, w1);
      undecided = omega (arith, w2);
      positive = omega (arith, w3);
    }

score_pair-IsStep :
    (family : String) (label : Option Label) (prediction : Option Prediction) (t : Tally)
    → IsStep family (pair_of label prediction) t (score_pair family (pair_of label prediction) t)
unfolding score_pair
score_pair-IsStep family (some l) (some q) t = elim (Bool-cases (same l.label unlabelable_value)) [
  | inl open_unit ↦ rw open_unit (undecided-IsStep family l (some q) t open_unit)
  | inr closed ↦ rw closed (judge-IsStep family l (some q) _ _ t closed)
]
score_pair-IsStep family (some l) none t = elim (Bool-cases (same l.label unlabelable_value)) [
  | inl open_unit ↦ rw open_unit (undecided-IsStep family l none t open_unit)
  | inr closed ↦ rw closed (judge-IsStep family l none false _ t closed)
]
score_pair-IsStep family none (some q) t = record {
  balance = omega arith;
  decided = omega arith;
  undecided = omega arith;
  positive = omega arith;
}
score_pair-IsStep family none none t = record {
  balance = omega arith;
  decided = omega arith;
  undecided = omega arith;
  positive = omega arith;
}

tally-counts :
    (family : String) (pairs : List Pair) (t : Tally)
    → let t' = tally family pairs t in
      (t'.true_positives + t'.false_positives + t'.false_negatives + t'.true_negatives + t.labeled
        ≡ t.true_positives + t.false_positives + t.false_negatives + t.true_negatives + t'.labeled)
      × (t'.labeled ≡ t.labeled + total (on_label decided_weight) pairs)
      × (t'.unlabelable ≡ t.unlabelable + total (on_label undecided_weight) pairs)
      × (t'.true_positives + t'.false_negatives
          ≡ t.true_positives + t.false_negatives + total (on_label (positive_weight family)) pairs)
unfolding tally
tally-counts family [] t = (omega arith, omega arith, omega arith, omega arith)
tally-counts family (p ∷ pairs) t =
    let step = score_pair-IsStep family p.label p.prediction t in
    let (b, d, u, l) = tally-counts family pairs (score_pair family p t) in
    (
      omega (arith, b, step.balance),
      omega (arith, d, step.decided),
      omega (arith, u, step.undecided),
      omega (arith, l, step.positive),
    )

-- In the score of the aligned pairs, true and false positives and negatives add up to the labeled
-- units; these are the family's labels that could be decided, the unlabelable units are the
-- others, and the positive labels are those of the positive class: none of these counts depends
-- on the predictions.
pub evaluate-align :
    (fl : Floats) (ls : List Label) (ps : List Prediction) (family : String)
    → let s = evaluate fl family (align ls ps family) in
      let units = label_units family 0 ls in
      (s.counts.true_positives + s.counts.false_positives + s.counts.false_negatives
          + s.counts.true_negatives
        ≡ s.counts.labeled)
      × (s.counts.labeled ≡ total (λ l. decided_weight l.1) units)
      × (s.counts.unlabelable ≡ total (λ l. undecided_weight l.1) units)
      × (s.labeled_pos ≡ total (λ l. positive_weight family l.1) units)
unfolding evaluate
evaluate-align fl ls ps family =
    let (b, d, u, l) = tally-counts family (align ls ps family) no_tally in
    let g : Prediction → ℕ = λ p. 0 in
    (
      omega (arith, b),
      omega (arith, d, (align-partition decided_weight g ls ps family).0),
      omega (arith, u, (align-partition undecided_weight g ls ps family).0),
      omega (arith, l, (align-partition (positive_weight family) g ls ps family).0),
    )
