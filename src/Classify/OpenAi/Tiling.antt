-- ===== src/Classify/OpenAi/Tiling.antt =====
-- Segments that pass the checks tile the turn; internal/classify/openai.go.
use Prim.Native.String.{len}
use flow_indicator.Base.{
  ℕ, ◌≡◌, ◌≤◌, ◌<◌, refl, inl, inr, String, Option, none, some, List, [], ◌∷◌, leb, pos_part,
  Bool-cases, arith,
}
use flow_indicator.Classify.{SegmentLabel, Segment, other_label}
use flow_indicator.Classify.Structure.{Env}
use flow_indicator.Classify.OpenAi.{
  ModelSegment, ModelOutput, check_segment, check_segments, validate, add, label_or, tile_from,
  Rejected, ◌then_check◌, tile,
}

-- The segments follow one another from `a` to `b`, and none is empty.
abbrev pub Covers : List Segment → ℕ → ℕ → Type 0
Covers [] a b = a ≡ b
Covers (s ∷ segments) a b = (s.start ≡ a) × (a < s.end) × Covers segments s.end b

add-Covers :
    (text : String) (label : SegmentLabel) (a b c : ℕ) (later : List Segment)
    → a ≤ b
    → Covers later b c
    → Covers (add text label a b later) a c
add-Covers text label a b c later h v = elim (Bool-cases (leb b a)) [
  | inl empty ↦ let e : a ≡ b = ground arith in rw (Covers, empty, e) v
  | inr full ↦ rw (Covers, full) (refl, ground arith, v)
]

check_segment-bounds :
    (text : String) (prev_end : ℕ) (s : ModelSegment)
    → check_segment text prev_end s ≡ none
    → (prev_end ≤ pos_part s.start)
      × (pos_part s.start ≤ pos_part s.end)
      × (pos_part s.end ≤ len text)
unfolding check_segment
check_segment-bounds text prev_end s h = ground arith

-- A chain of checks passes if each does.
then_check-none : (a b : Option Rejected) → (a then_check b) ≡ none → (a ≡ none) × (b ≡ none)
then_check-none none b h = (refl, h)
then_check-none (some e) b h = cc

tile_from-Covers :
    (text : String) (at : ℕ) (segments : List ModelSegment)
    → at ≤ len text
    → check_segments text at segments ≡ none
    → Covers (tile_from text at segments) at (len text)
unfolding check_segments tile_from
tile_from-Covers text at [] h ok = add-Covers text other_label at (len text) (len text) [] h refl
tile_from-Covers text at (s ∷ segments) h ok =
    let (first, others) =
      then_check-none (check_segment text at s) (check_segments text (pos_part s.end) segments)
        ok in
    let (after, ordered, within) = check_segment-bounds text at s first in
    add-Covers text other_label at (pos_part s.start) (len text)
      (add text (label_or s.label) (pos_part s.start) (pos_part s.end)
        (tile_from text (pos_part s.end) segments))
      after
      (add-Covers text (label_or s.label) (pos_part s.start) (pos_part s.end) (len text)
        (tile_from text (pos_part s.end) segments) ordered
        (tile_from-Covers text (pos_part s.end) segments within others))

-- If a model's output passes `validate` for a text, the segments that `tile` makes of it follow
-- one another from the first byte of the text to its last, with no gap, no overlap and no empty
-- segment.
pub validate-tile :
    (env : Env) (out : ModelOutput) (text : String) (outstanding : List String)
    → validate env out text outstanding ≡ none
    → Covers (tile out text) 0 (len text)
unfolding validate tile
validate-tile env out text outstanding ok =
    let first : 0 ≤ len text = omega arith in
    let rest = then_check-none _ _ ok in
    let segments = then_check-none (check_segments text 0 out.segments) _ rest.1 in
    tile_from-Covers text 0 out.segments first segments.0
