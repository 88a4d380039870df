-- ===== src/Classify/Sentences/Tiling.antt =====
-- The sentences of a text tile it; internal/classify/heuristic.go.
use flow_indicator.Base.{
  ℕ, zero, suc, ◌+◌, ◌-◌, ◌≤◌, ◌<◌, ◌≡◌, refl, sym, ap, ◌∙◌, inl, inr, String, Bool, ◌||◌, List, [],
  ◌∷◌, ◌++◌, arith, length, take, drop, get_elem?, ltb, ◌==◌, Bool-cases, Option-cases, take-drop,
  get_elem?-lt, length-drop,
}
use flow_indicator.Classify.Sentences.{
  Span, bytes, skip_while, skip, last_span, sentences_from, sentences, is_final, is_closing,
  is_blank,
}

-- The spans follow one another from `a` to `b`, and none is empty.
abbrev pub Tiles : List Span → ℕ → ℕ → Type 0
Tiles [] a b = a ≡ b
Tiles (s ∷ ss) a b = (s.start ≡ a) × (a < s.end) × Tiles ss s.end b

-- The bytes of the spans, one after another.
abbrev pub rejoin : List ℕ → List Span → List ℕ
rejoin text [] = []
rejoin text (s ∷ ss) = take (s.end - s.start) (drop s.start text) ++ rejoin text ss

skip_while_bounds :
    (p : ℕ → Bool) (rest : List ℕ) (j : ℕ)
    → (j ≤ skip_while p rest j) × (skip_while p rest j ≤ j + length rest)
unfolding skip_while
skip_while_bounds p [] j = (omega arith, omega arith)
skip_while_bounds p (c ∷ rest) j = ground (arith, skip_while_bounds p rest (j + 1))

skip_bounds :
    (p : ℕ → Bool) (text : List ℕ) (j : ℕ)
    → j ≤ length text
    → (j ≤ skip p text j) × (skip p text j ≤ length text)
skip_bounds p text j h =
    let b = skip_while_bounds p (drop j text) j in (b.0, omega (arith, b.1, length-drop j text))

last_span-Tiles :
    (text : List ℕ) (start : ℕ)
    → start ≤ length text
    → Tiles (last_span text start) start (length text)
last_span-Tiles text start h = elim (Bool-cases (ltb start (length text))) [
  | inl lt ↦ rw lt (refl, ground arith, refl)
  | inr ge ↦ rw ge (ground arith)
]

sentences_from-Tiles :
    (fuel : ℕ) (text : List ℕ) (start i : ℕ)
    → start ≤ i
    → i ≤ length text
    → length text < fuel + i
    → Tiles (sentences_from fuel text start i) start (length text)
unfolding sentences_from
sentences_from-Tiles zero text start i a b c = absurd (omega arith)
sentences_from-Tiles (suc f) text start i a b c = elim (Option-cases (get_elem? text i)) [
  | inl out ↦ rw (Tiles, out) (last_span-Tiles text start (omega arith))
  | inr (ch, at) ↦
      let lt = get_elem?-lt text i {x = ch} at in
      elim (Bool-cases (ch == 10)) [
        | inl newline ↦
            rw (Tiles, at, newline)
              (
                refl,
                omega arith,
                sentences_from-Tiles f text (i + 1) (i + 1) (omega arith) (omega arith)
                    (omega arith),
              )
        | inr inside ↦ elim (Bool-cases (is_final ch)) [
          | inr plain ↦
              rw (Tiles, at, inside, plain)
                (sentences_from-Tiles f text start (i + 1) (omega arith) (omega arith)
                  (omega arith))
          | inl final ↦
              let j = skip is_closing text (i + 1) in
              let bj = skip_bounds is_closing text (i + 1) (omega arith) in
              elim (Option-cases (get_elem? text j)) [
                | inl over ↦
                    rw (Tiles, at, inside, final, over) (last_span-Tiles text start (omega arith))
                | inr (d, at') ↦ elim (Bool-cases (is_blank d || d == 10)) [
                  | inr joined ↦
                      rw (Tiles, at, inside, final, at', joined)
                        (sentences_from-Tiles f text start (i + 1) (omega arith) (omega arith)
                          (omega arith))
                  | inl blank ↦
                      let k = skip is_blank text j in
                      let bk = skip_bounds is_blank text j (bj.1) in
                      rw (Tiles, at, inside, final, at', blank)
                        (
                          refl,
                          omega (arith, bj, bk),
                          sentences_from-Tiles f text k k (omega arith) bk.1
                              (omega (arith, bj, bk)),
                        )
                ]
              ]
        ]
      ]
]

drop_nil : (n : ℕ) → drop {A = ℕ} n [] ≡ []
drop_nil zero = refl
drop_nil (suc n) = refl

drop-drop : (a n : ℕ) (xs : List ℕ) → drop n (drop a xs) ≡ drop (a + n) xs
drop-drop zero n xs = ap (λ k. drop k xs) (let e : n ≡ 0 + n = omega arith in e)
drop-drop (suc a) n [] = drop_nil n ∙ sym (drop_nil (suc a + n))
drop-drop (suc a) n (x ∷ xs) =
    drop-drop a n xs
    ∙ ap (λ k. drop k (x ∷ xs)) (let e : suc (a + n) ≡ suc a + n = omega arith in e)

drop_all : (xs : List ℕ) → drop (length xs) xs ≡ []
drop_all [] = refl
drop_all (x ∷ xs) = drop_all xs

rejoin-Tiles :
    (text : List ℕ) (ss : List Span) (a : ℕ)
    → Tiles ss a (length text)
    → rejoin text ss ≡ drop a text
rejoin-Tiles text [] a t = rw t (sym (drop_all text))
rejoin-Tiles text (s ∷ ss) a (start, lt, more) =
    let e : a + (s.end - a) ≡ s.end = omega arith in
    rw (start, rejoin-Tiles text ss s.end more)
      (ap (λ k. take (s.end - a) (drop a text) ++ drop k text) (sym e)
        ∙ ap (λ zs. take (s.end - a) (drop a text) ++ zs) (sym (drop-drop a (s.end - a) text))
        ∙ take-drop (s.end - a) (drop a text))

-- The spans that `sentences` returns for a text follow one another from its first byte to its
-- last, none of them empty, and their bytes put together again are the bytes of the text.
pub sentences_tile :
    (text : String)
    → Tiles (sentences text) 0 (length (bytes text))
      × (rejoin (bytes text) (sentences text) ≡ bytes text)
unfolding sentences
sentences_tile text =
    let t =
      sentences_from-Tiles (length (bytes text) + 1) (bytes text) 0 0 (omega arith) (omega arith)
        (omega arith) in
    (t, rejoin-Tiles (bytes text) (sentences_from (length (bytes text) + 1) (bytes text) 0 0) 0 t)
