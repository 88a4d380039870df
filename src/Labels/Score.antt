-- ===== src/Labels/Score.antt =====
-- internal/labels/score.go: the counts over aligned pairs, and the agreement of two passes.
--
-- The text of the consequence is left out, and of `Kappa` all after its counts.
pub mod Accounting
use flow_indicator.Base.{
  ℕ, suc, ◌+◌, ◌*◌, String, Bool, true, false, not, ◌&&◌, Option, none, some, List, [], ◌∷◌, same,
  ◌==◌, if◌then◌else◌, lookup, insert,
}
use flow_indicator.Floats.{Float64, Floats, literal, of_int, quotient, over, times, plus}
use flow_indicator.Stream.{add_member}
use flow_indicator.Classify.Structure.{sort_texts}
use flow_indicator.Labels.{Label, in_table, positives, unlabelable as unlabelable_value}
use flow_indicator.Labels.Align.{Prediction, Pair}

-- A Go map of counts: `m[key]++`.
abbrev pub Counts : Type 0
Counts = List (String × ℕ)

abbrev count_at : String → Counts → ℕ
count_at key m = elim (lookup key m) [ none ↦ 0 | some n ↦ n ]

abbrev pub count_up : String → Counts → Counts
count_up key m = insert key (count_at key m + 1) m

pub record Confusion : Type 0 where
  pub cells : List (String × Counts)
  pub missed_by_build : Counts
  pub unlabeled : Counts
  pub unlabelable_units : ℕ

-- The counts of a `Score`, which the loop of `Evaluate` keeps.
pub record Tally : Type 0 where
  pub confusion : Confusion
  pub true_positives : ℕ
  pub false_positives : ℕ
  pub false_negatives : ℕ
  pub true_negatives : ℕ
  pub labeled : ℕ
  pub unlabelable : ℕ

abbrev pub no_tally : Tally
no_tally = record {
  confusion = record { cells = []; missed_by_build = []; unlabeled = []; unlabelable_units = 0 };
  true_positives = 0;
  false_positives = 0;
  false_negatives = 0;
  true_negatives = 0;
  labeled = 0;
  unlabelable = 0;
}

-- `cell`.
abbrev cell : List (String × Counts) → String → String → List (String × Counts)
cell m labeled predicted =
    let row : Counts = elim (lookup labeled m) [ none ↦ [] | some r ↦ r ] in
    insert labeled (count_up predicted row) m

abbrev pub undecided : Tally → Tally
undecided t = record t {
  unlabelable = t.unlabelable + 1;
  confusion = record (t.confusion) { unlabelable_units = t.confusion.unlabelable_units + 1 };
}

abbrev pub judge : Bool → Bool → Tally → Tally
judge true true t = record t { true_positives = t.true_positives + 1 }
judge false true t = record t { false_positives = t.false_positives + 1 }
judge true false t = record t { false_negatives = t.false_negatives + 1 }
judge false false t = record t { true_negatives = t.true_negatives + 1 }

abbrev score_both : String → Label → Prediction → Tally → Tally
score_both family l p t =
    if same l.label unlabelable_value
    then undecided t
    else judge (in_table positives family l.label) (in_table positives family p.value) (record t {
      labeled = t.labeled + 1;
      confusion = record (t.confusion) { cells = cell t.confusion.cells l.label p.value };
    })

abbrev score_missed : String → Label → Tally → Tally
score_missed family l t =
    if same l.label unlabelable_value
    then undecided t
    else judge (in_table positives family l.label) false (record t {
      labeled = t.labeled + 1;
      confusion = record (t.confusion) {
        missed_by_build = count_up l.label t.confusion.missed_by_build;
      };
    })

abbrev score_unlabeled : Prediction → Tally → Tally
score_unlabeled p t = record t {
  confusion = record (t.confusion) { unlabeled = count_up p.value t.confusion.unlabeled };
}

-- The body of the loop of `Evaluate`.
unfoldable pub score_pair : String → Pair → Tally → Tally
unfolding in_table
score_pair family p t = elim p.label [
  | some l ↦ elim p.prediction [ some q ↦ score_both family l q t | none ↦ score_missed family l t ]
  | none ↦ elim p.prediction [ some q ↦ score_unlabeled q t | none ↦ t ]
]

unfoldable pub tally : String → List Pair → Tally → Tally
unfolding score_pair
tally family [] t = t
tally family (p ∷ pairs) t = tally family pairs (score_pair family p t)

-- `rate`: -1, for a share of nothing, is `none`.
abbrev pub rate : ℕ → ℕ → Option Float64
rate num den = if den == 0 then none else some (quotient num den)

pub record Score : Type 0 where
  pub family : String
  pub counts : Tally
  pub predicted_pos : ℕ
  pub labeled_pos : ℕ
  pub precision : Option Float64
  pub recall : Option Float64
  pub f1 : Option Float64

abbrev positive_number : Floats → Option Float64 → Bool
positive_number fl none = false
positive_number fl (some r) = fl.lt (literal 0 1) r

abbrev harmonic : Option Float64 → Option Float64 → Option Float64
harmonic (some p) (some r) = some (over (times (times (literal 2 1) p) r) (plus p r))
harmonic _ _ = none

-- `Evaluate`.
unfoldable pub evaluate : Floats → String → List Pair → Score
unfolding tally
evaluate fl family pairs =
    let t = tally family pairs no_tally in
    let p = rate t.true_positives (t.true_positives + t.false_positives) in
    let r = rate t.true_positives (t.true_positives + t.false_negatives) in
    record {
      family = family;
      counts = t;
      predicted_pos = t.true_positives + t.false_positives;
      labeled_pos = t.true_positives + t.false_negatives;
      precision = p;
      recall = r;
      f1 = if positive_number fl p && positive_number fl r then harmonic p r else none;
    }

abbrev keys_of {ℓ} : {A : Type ℓ} → List (String × A) → List String → List String
keys_of [] seen = seen
keys_of (e ∷ es) seen = keys_of es (add_member seen e.0)

abbrev cell_keys : List (String × Counts) → List String → List String
cell_keys [] seen = seen
cell_keys (row ∷ rows) seen = cell_keys rows (keys_of row.1 (add_member seen row.0))

-- `Classes`.
unfoldable pub classes : Confusion → List String
unfolding sort_texts add_member
classes c = sort_texts (keys_of c.unlabeled (keys_of c.missed_by_build (cell_keys c.cells [])))

-- A unit that both passes can judge: what `unitKey` writes.
abbrev same_unit : Label → Label → Bool
same_unit a b = same a.record_id b.record_id && a.start == b.start && a.end == b.end

-- `byUnit`: one label for each unit of a pass, the last one.
abbrev put_unit : Label → List Label → List Label
put_unit l [] = l ∷ []
put_unit l (m ∷ ms) = let later = put_unit l ms in if same_unit m l then l ∷ ms else m ∷ later

abbrev by_unit_from : String → String → List Label → List Label → List Label
by_unit_from family labeler [] out = out
by_unit_from family labeler (l ∷ ls) out =
    by_unit_from family labeler ls
      (if same l.family family && same l.labeler labeler then put_unit l out else out)

unfoldable pub by_unit : List Label → String → String → List Label
by_unit ls family labeler = by_unit_from family labeler ls []

abbrev unit_in : Label → List Label → Option Label
unit_in l [] = none
unit_in l (m ∷ ms) = let later = unit_in l ms in if same_unit m l then some m else later

-- What `Kappa` counts over the units that both passes labelled.
pub record Agreement : Type 0 where
  pub units : ℕ
  pub agreed : ℕ
  pub count_a : Counts
  pub count_b : Counts

abbrev pub no_agreement : Agreement
no_agreement = record { units = 0; agreed = 0; count_a = []; count_b = [] }

abbrev agree_on : Label → Label → Agreement → Agreement
agree_on l m a = record a {
  units = a.units + 1;
  agreed = if same l.label m.label then a.agreed + 1 else a.agreed;
  count_a = count_up l.label a.count_a;
  count_b = count_up m.label a.count_b;
}

unfoldable pub agreement_of : List Label → List Label → Agreement → Agreement
agreement_of [] lb a = a
agreement_of (l ∷ la) lb a =
    agreement_of la lb (elim (unit_in l lb) [ none ↦ a | some m ↦ agree_on l m a ])

unfoldable pub kappa_counts : List Label → String → String → String → Agreement
unfolding by_unit agreement_of
kappa_counts ls family a b = agreement_of (by_unit ls family a) (by_unit ls family b) no_agreement
