-- ===== src/Observe.antt =====
-- internal/observe: the deterministic counts over a record's text, and the rolling history.
use Prim.Native.Char.{code}
use Prim.Native.String.{String, len, count}
use text.Mathlib.Text.{starts_with}
use flow_indicator.Base.{
  ℕ, suc, ◌+◌, ◌-◌, Bool, true, false, not, Option, none, some, List, [], ◌∷◌, same, ◌==◌, ltb, leb,
  min, ◌^◌, if◌then◌else◌, length, contains, push_bounded,
}
use flow_indicator.Floats.{Float64, literal, quotient, seconds}
use flow_indicator.Stream.{
  Record, Unicode, Line, lines, normalize, fields_func, trim_func, token_set, add_members, jaccard,
  is_newline, is_operator_turn, failed_actions, path_targets, write_targets,
}

pub record Observation : Type 0 where
  pub bytes : ℕ
  pub chars : ℕ
  pub words : ℕ
  pub line_count : ℕ
  pub operator_turn : Bool
  pub action_count : ℕ
  pub failed_count : ℕ
  pub path_targets : List String
  pub write_paths : List String
  pub quoted_chars : ℕ
  pub quoted_fraction : Float64
  pub repeat_chars : ℕ
  pub repeat_fraction : Float64
  pub lexical_overlap_previous : Float64
  pub lexical_overlap_window : Float64
  pub gap_seconds_previous : Option Float64
  pub gap_seconds_previous_human : Option Float64

-- Sets of texts are lists.
pub record TurnHistory : Type 0 where
  pub tokens : List String
  pub normalized : List String

-- `last.record` and `last.human`, in nanoseconds, 0 for no time.
pub record Observer : Type 0 where
  pub window : ℕ
  pub history : List TurnHistory
  pub last_record : ℕ
  pub last_human : ℕ

-- `New`.
unfoldable pub new_observer : ℕ → Observer
new_observer window = record {
  window = if ltb window 1 then 1 else window;
  history = [];
  last_record = 0;
  last_human = 0;
}

-- `Reset`.
unfoldable pub reset_observer : Observer → Observer
reset_observer o = record o { history = [] }

abbrev pub count_newlines : String → ℕ
count_newlines String.[] = 0
count_newlines (String.◌∷◌ c s) =
    let rest = count_newlines s in if is_newline c then suc rest else rest

unfoldable pub fraction : ℕ → ℕ → Float64
fraction part whole = if whole == 0 then literal 0 1 else quotient part whole

-- `elapsed`: Sub saturates at the largest Duration.
unfoldable pub elapsed : ℕ → ℕ → Option Float64
elapsed from to =
    if from == 0
    then none
    else if ltb to from
    then none
    else some (seconds (min (to - from) (2 ^ 63 - 1)))

pub record Gaps : Type 0 where
  pub previous : Option Float64
  pub previous_human : Option Float64
  pub observer : Observer

-- `gaps`.
unfoldable pub gaps : Observer → Record → Gaps
unfolding elapsed
gaps o r =
    if r.timestamp == 0
    then record { previous = none; previous_human = none; observer = o }
    else record {
      previous = elapsed o.last_record r.timestamp;
      previous_human = elapsed o.last_human r.timestamp;
      observer = record o {
        last_record = r.timestamp;
        last_human = if is_operator_turn r then r.timestamp else o.last_human;
      };
    }

abbrev pub min_repeat_line_chars : ℕ
min_repeat_line_chars = 8

abbrev seen_in : String → List TurnHistory → Bool
seen_in t [] = false
seen_in t (h ∷ history) = if contains t h.normalized then true else seen_in t history

unfoldable pub repeat_chars_in : Unicode → List TurnHistory → List Line → ℕ
repeat_chars_in u history [] = 0
repeat_chars_in u history (l ∷ ls) =
    let norm = normalize u l.text in
    let rest = repeat_chars_in u history ls in
    if ltb (len norm) min_repeat_line_chars
    then rest
    else if seen_in norm history
    then count l.text + rest
    else rest

unfoldable pub repeat_chars : Unicode → Observer → String → ℕ
unfolding repeat_chars_in
repeat_chars u o text = repeat_chars_in u o.history (lines text)

unfoldable pub normalized_lines : Unicode → List Line → List String
normalized_lines u [] = []
normalized_lines u (l ∷ ls) =
    let norm = normalize u l.text in
    let rest = normalized_lines u ls in
    if leb min_repeat_line_chars (len norm) then norm ∷ rest else rest

-- `inlineCodeChars`: `span` is the position of the backtick that opened a span.
unfoldable pub inline_code_from : ℕ → Option ℕ → String → ℕ
inline_code_from i span String.[] = 0
inline_code_from i none (String.◌∷◌ c s) =
    inline_code_from (i + 1) (if code c == b'`' then some i else none) s
inline_code_from i (some start) (String.◌∷◌ c s) =
    let closed = i - start + 1 + inline_code_from (i + 1) none s in
    let open_still = inline_code_from (i + 1) (some start) s in
    if code c == b'`' then closed else open_still

unfoldable pub inline_code_chars : String → ℕ
unfolding inline_code_from
inline_code_chars line = inline_code_from 0 none line

unfoldable pub quoted_from : Unicode → Bool → List Line → ℕ
unfolding inline_code_chars
quoted_from u in_fence [] = 0
quoted_from u in_fence (l ∷ ls) =
    let trimmed = trim_func u.is_space l.text in
    let fence = starts_with trimmed "```" in
    let rest = quoted_from u (if fence then not in_fence else in_fence) ls in
    if fence
    then count l.text + rest
    else if in_fence
    then count l.text + rest
    else if starts_with trimmed ">"
    then count l.text + rest
    else inline_code_chars l.text + rest

unfoldable pub quoted_chars : Unicode → String → ℕ
unfolding quoted_from
quoted_chars u text = quoted_from u false (lines text)

abbrev last_of : List TurnHistory → List String
last_of [] = []
last_of (h ∷ []) = h.tokens
last_of (h ∷ k ∷ history) = last_of (k ∷ history)

unfoldable pub overlap_previous : Observer → List String → Float64
overlap_previous o ts =
    if length o.history == 0 then literal 0 1 else jaccard ts (last_of o.history)

abbrev union_of : List String → List TurnHistory → List String
union_of set [] = set
union_of set (h ∷ history) = union_of (add_members set h.tokens) history

unfoldable pub overlap_window : Observer → List String → Float64
overlap_window o ts =
    if length o.history == 0 then literal 0 1 else jaccard ts (union_of [] o.history)

-- `push`.
unfoldable pub push_history : Unicode → Observer → String → List String → Observer
push_history u o text ts = record o {
  history =
      push_bounded o.window o.history
        (record { tokens = ts; normalized = normalized_lines u (lines text) });
}

-- The counts that every record has: `countChars`, `countActions` and the gaps.
unfoldable pub plain_observation : Unicode → Record → Gaps → Observation
plain_observation u r g = record {
  bytes = len r.text;
  chars = count r.text;
  words = length (fields_func u.is_space r.text);
  line_count = if same r.text "" then 0 else 1 + count_newlines r.text;
  operator_turn = false;
  action_count = length r.actions;
  failed_count = failed_actions r;
  path_targets = path_targets r;
  write_paths = write_targets r;
  quoted_chars = 0;
  quoted_fraction = literal 0 1;
  repeat_chars = 0;
  repeat_fraction = literal 0 1;
  lexical_overlap_previous = literal 0 1;
  lexical_overlap_window = literal 0 1;
  gap_seconds_previous = g.previous;
  gap_seconds_previous_human = g.previous_human;
}

unfoldable pub operator_observation : Unicode → Observer → Record → Observation → Observation
unfolding quoted_chars repeat_chars overlap_previous overlap_window fraction
operator_observation u o r obs =
    let ts = token_set u r.text in
    record obs {
      operator_turn = true;
      quoted_chars = quoted_chars u r.text;
      quoted_fraction = fraction (quoted_chars u r.text) obs.chars;
      repeat_chars = repeat_chars u o r.text;
      repeat_fraction = fraction (repeat_chars u o r.text) obs.chars;
      lexical_overlap_previous = overlap_previous o ts;
      lexical_overlap_window = overlap_window o ts;
    }

-- `Observe`.
unfoldable pub observe : Unicode → Observer → Record → Observer × Observation
unfolding gaps plain_observation operator_observation push_history
observe u o r =
    let g = gaps o r in
    let obs = plain_observation u r g in
    if is_operator_turn r
    then (
      push_history u g.observer r.text (token_set u r.text),
      operator_observation u g.observer r obs,
    )
    else (g.observer, obs)
