-- ===== src/Labels/Align.antt =====
-- internal/labels/align.go: the alignment of predictions with labels.
--
-- A unit is a label or a prediction beside its index in the source's slice.
mod Units
mod Candidates
pub mod Partition
use flow_indicator.Base.{
  ℕ, zero, suc, ◌+◌, ◌-◌, ◌/◌, ◌%◌, String, Bool, true, false, ◌||◌, Option, none, some, List, [],
  ◌∷◌, ◌++◌, same, ltb, leb, ◌==◌, if◌then◌else◌, member, get_elem?, sort_stable, min, max,
}
use flow_indicator.Stream.{append_text}
use flow_indicator.Classify.Structure.{text_leb}
use flow_indicator.Labels.{Label, is_whole_record}
use Prim.Native.String.{len}

pub record Prediction : Type 0 where
  pub session : String
  pub record_id : String
  pub family : String
  pub start : ℕ
  pub end : ℕ
  pub value : String
  pub text : String

pub record Pair : Type 0 where
  pub label : Option Label
  pub prediction : Option Prediction

-- The candidate of the source, with the units that its indexes name.
pub record Candidate : Type 0 where
  pub li : ℕ
  pub pi : ℕ
  pub overlap : ℕ
  pub start : ℕ
  pub label : Label
  pub prediction : Prediction

unfoldable pub is_whole_prediction : Prediction → Bool
is_whole_prediction p = leb p.end p.start

-- `overlapOf`.
unfoldable pub overlap_of : Label → Prediction → ℕ
unfolding is_whole_record is_whole_prediction
overlap_of l p =
    let lo = max l.start p.start in
    let hi = min l.end p.end in
    if is_whole_record l || is_whole_prediction p then 1 else if leb hi lo then 0 else hi - lo

-- The units of a family, each with its index.
unfoldable pub label_units : String → ℕ → List Label → List (ℕ × Label)
label_units family i [] = []
label_units family i (l ∷ ls) =
    let later = label_units family (i + 1) ls in
    if same l.family family then (i, l) ∷ later else later

unfoldable pub prediction_units : String → ℕ → List Prediction → List (ℕ × Prediction)
prediction_units family i [] = []
prediction_units family i (p ∷ ps) =
    let later = prediction_units family (i + 1) ps in
    if same p.family family then (i, p) ∷ later else later

pub candidates_with : ℕ × Label → List (ℕ × Prediction) → List Candidate
unfolding overlap_of
candidates_with l [] = []
candidates_with l (p ∷ ps) =
    let later = candidates_with l ps in
    if same l.1.record_id p.1.record_id
    then if overlap_of l.1 p.1 == 0
      then later
      else record {
        li = l.0;
        pi = p.0;
        overlap = overlap_of l.1 p.1;
        start = p.1.start;
        label = l.1;
        prediction = p.1;
      }
        ∷ later
    else later

pub candidates_of : List (ℕ × Label) → List (ℕ × Prediction) → List Candidate
unfolding candidates_with
candidates_of [] ps = []
candidates_of (l ∷ ls) ps = candidates_with l ps ++ candidates_of ls ps

-- The order in which candidates are taken.
pub ranks_before : Candidate → Candidate → Bool
ranks_before a b =
    if a.overlap == b.overlap
    then if a.start == b.start then ltb a.li b.li else ltb a.start b.start
    else ltb b.overlap a.overlap

-- The pairs taken, and the indexes that `usedL` and `usedP` hold at the end.
pub record Taken : Type 0 where
  pub pairs : List Pair
  pub used_labels : List ℕ
  pub used_predictions : List ℕ

abbrev pub add_pair : Pair → Taken → Taken
add_pair p t = record t { pairs = p ∷ t.pairs }

-- The greedy loop over the candidates.
pub take_greedily : List Candidate → List ℕ → List ℕ → Taken
take_greedily [] ul up = record { pairs = []; used_labels = ul; used_predictions = up }
take_greedily (c ∷ cs) ul up = elim (member c.li ul || member c.pi up) [
  | true ↦ take_greedily cs ul up
  | false ↦
      add_pair (record { label = some c.label; prediction = some c.prediction })
        (take_greedily cs (c.li ∷ ul) (c.pi ∷ up))
]

pub unmatched_labels : List (ℕ × Label) → List ℕ → List Pair
unmatched_labels [] used = []
unmatched_labels (l ∷ ls) used =
    let later = unmatched_labels ls used in
    if member l.0 used then later else record { label = some l.1; prediction = none } ∷ later

pub unmatched_predictions : List (ℕ × Prediction) → List ℕ → List Pair
unmatched_predictions [] used = []
unmatched_predictions (p ∷ ps) used =
    let later = unmatched_predictions ps used in
    if member p.0 used then later else record { label = none; prediction = some p.1 } ∷ later

abbrev digit : ℕ → String
digit v =
    let digits : List String = "0" ∷ "1" ∷ "2" ∷ "3" ∷ "4" ∷ "5" ∷ "6" ∷ "7" ∷ "8" ∷ "9" ∷ [] in
    elim (get_elem? digits v) [ none ↦ "" | some t ↦ t ]

-- `for v := n; v > 0; v /= 10`: at most n rounds.
abbrev digits_from : ℕ → ℕ → String → String
digits_from zero v s = s
digits_from (suc fuel) v s = elim (v == 0) [
  | true ↦ s
  | false ↦ digits_from fuel (v / 10) (append_text (digit (v % 10)) s)
]

abbrev zeros : ℕ → String → String
zeros zero s = s
zeros (suc n) s = zeros n (append_text "0" s)

unfoldable pub pad : ℕ → String
pad n = let s = digits_from n n "" in zeros (10 - len s) s

unfoldable pub sort_key : Pair → String
unfolding pad
sort_key p = elim p.label [
  | some l ↦ append_text l.record_id (append_text "\0" (pad l.start))
  | none ↦ elim p.prediction [
    | some q ↦ append_text q.record_id (append_text "\0" (pad q.start))
    | none ↦ ""
  ]
]

-- `<` of texts: not above, in the other order.
pub key_before : Pair → Pair → Bool
unfolding sort_key
key_before a b = if text_leb (sort_key b) (sort_key a) then false else true

-- `Align`, before the pairs are put in order.
pub matched_units : List (ℕ × Label) → List (ℕ × Prediction) → List Pair
unfolding candidates_of ranks_before take_greedily unmatched_labels unmatched_predictions
matched_units ls ps =
    let taken = take_greedily (sort_stable ranks_before (candidates_of ls ps)) [] [] in
    taken.pairs
    ++ unmatched_labels ls taken.used_labels
    ++ unmatched_predictions ps taken.used_predictions

unfoldable pub align : List Label → List Prediction → String → List Pair
unfolding key_before matched_units label_units prediction_units
align ls ps family =
    sort_stable key_before (matched_units (label_units family 0 ls) (prediction_units family 0 ps))
