-- ===== src/Tests/Scores.antt =====
-- Labels, predictions and the score of their alignment.
use flow_indicator.Base.{ℕ, ◌+◌, ◌≡◌, refl, String, List, [], ◌∷◌, length, total, All, sort_stable}
use flow_indicator.Floats.{exact}
use flow_indicator.Labels.{Label}
use flow_indicator.Labels.Align.{Prediction, align, label_units, prediction_units}
use flow_indicator.Labels.Align.Partition.{on_label, on_prediction, Fits, align-partition}
use flow_indicator.Labels.Score.{evaluate}
use flow_indicator.Labels.Score.Accounting.{
  decided_weight, undecided_weight, positive_weight, evaluate-align,
}

abbrev judged : String → ℕ → ℕ → String → Label
judged record_id start end value = record {
  session = "s";
  record_id = record_id;
  family = "obligation";
  start = start;
  end = end;
  label = value;
  kind = "";
  labeler = "a";
  text = "";
  note = "";
}

abbrev claimed : String → ℕ → ℕ → String → Prediction
claimed record_id start end value = record {
  session = "s";
  record_id = record_id;
  family = "obligation";
  start = start;
  end = end;
  value = value;
  text = "";
}

-- The first two overlap predictions of their record; the third cannot be decided.
abbrev labels : List Label
labels =
    judged "r1" 0 10 "directive"
    ∷ judged "r1" 12 20 "description"
    ∷ judged "r2" 0 5 "unlabelable"
    ∷ []

abbrev predictions : List Prediction
predictions =
    claimed "r1" 2 14 "directive"
    ∷ claimed "r1" 13 20 "directive"
    ∷ claimed "r3" 0 4 "directive"
    ∷ []

align-partition_example :
    (total (on_label λ l. l.start) (align labels predictions "obligation")
      ≡ total (λ l. l.1.start) (label_units "obligation" 0 labels))
    × (total (on_prediction λ p. p.end) (align labels predictions "obligation")
        ≡ total (λ p. p.1.end) (prediction_units "obligation" 0 predictions))
    × All Fits (align labels predictions "obligation")
align-partition_example =
    align-partition (λ l. l.start) (λ p. p.end) labels predictions "obligation"

four_pairs : length (align labels predictions "obligation") ≡ 4
unfolding align sort_stable
four_pairs = refl

evaluate-align_example :
    let s = evaluate exact "obligation" (align labels predictions "obligation") in
    let units = label_units "obligation" 0 labels in
    (s.counts.true_positives + s.counts.false_positives + s.counts.false_negatives
        + s.counts.true_negatives
      ≡ s.counts.labeled)
    × (s.counts.labeled ≡ total (λ l. decided_weight l.1) units)
    × (s.counts.unlabelable ≡ total (λ l. undecided_weight l.1) units)
    × (s.labeled_pos ≡ total (λ l. positive_weight "obligation" l.1) units)
evaluate-align_example = evaluate-align exact labels predictions "obligation"

one_positive : (evaluate exact "obligation" (align labels predictions "obligation")).labeled_pos ≡ 1
unfolding evaluate align sort_stable
one_positive = refl
