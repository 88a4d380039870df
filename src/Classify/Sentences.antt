-- ===== src/Classify/Sentences.antt =====
-- internal/classify/heuristic.go: the split of a text into sentences.
--
-- The loop goes over the bytes of the text by index. It compares them with ASCII characters only:
-- `bytes` gives the other bytes as 128. Its fuel is one more than the number of bytes.
pub mod Tiling
use Prim.Native.Char.{Char, code, len_utf8}
use flow_indicator.Base.{
  ℕ, zero, suc, ◌+◌, ◌-◌, String, Bool, true, false, ◌||◌, Option, none, some, List, [], ◌∷◌, ◌++◌,
  ltb, ◌==◌, if◌then◌else◌, length, replicate, drop, get_elem?,
}

abbrev pub bytes : String → List ℕ
bytes String.[] = []
bytes (String.◌∷◌ c s) =
    (if ltb (code c) 128 then code c ∷ [] else replicate (len_utf8 c) 128) ++ bytes s

pub record Span : Type 0 where
  pub start : ℕ
  pub end : ℕ

abbrev span : ℕ → ℕ → Span
span a b = record { start = a; end = b }

-- `c == '.' || c == '!' || c == '?'`, and the same with a closing quote or bracket.
abbrev pub is_final : ℕ → Bool
is_final c = c == b'.' || c == b'!' || c == b'?'

abbrev pub is_closing : ℕ → Bool
is_closing c = is_final c || c == b'"' || c == b')'

abbrev pub is_blank : ℕ → Bool
is_blank c = c == b' ' || c == 9

-- `for j < len(text) && p(text[j]) { j++ }`, where `rest` is `text[j:]`.
pub skip_while : (ℕ → Bool) → List ℕ → ℕ → ℕ
skip_while p [] j = j
skip_while p (c ∷ rest) j = let further = skip_while p rest (j + 1) in if p c then further else j

abbrev pub skip : (ℕ → Bool) → List ℕ → ℕ → ℕ
skip p text j = skip_while p (drop j text) j

abbrev pub last_span : List ℕ → ℕ → List Span
last_span text start = if ltb start (length text) then span start (length text) ∷ [] else []

-- The loop of `sentences` from `i`, the span since `start` not yet closed.
pub sentences_from : ℕ → List ℕ → ℕ → ℕ → List Span
unfolding skip_while
sentences_from zero text start i = []
sentences_from (suc fuel) text start i = elim (get_elem? text i) [
  | none ↦ last_span text start
  | some c ↦ elim (c == 10) [
    | true ↦ span start (i + 1) ∷ sentences_from fuel text (i + 1) (i + 1)
    | false ↦ elim (is_final c) [
      | false ↦ sentences_from fuel text start (i + 1)
      | true ↦ elim (get_elem? text (skip is_closing text (i + 1))) [
        | none ↦ last_span text start
        | some d ↦ elim (is_blank d || d == 10) [
          | false ↦ sentences_from fuel text start (i + 1)
          | true ↦
              let k = skip is_blank text (skip is_closing text (i + 1)) in
              span start k ∷ sentences_from fuel text k k
        ]
      ]
    ]
  ]
]

unfoldable pub sentences : String → List Span
unfolding sentences_from
sentences text = sentences_from (length (bytes text) + 1) (bytes text) 0 0
