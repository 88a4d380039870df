-- ===== src/Stream/Tail/Bytes.antt =====
-- What a read adds to the bytes held, and where lastNewline cuts them; internal/stream/tail.go.
use flow_indicator.Base.{
  ℕ, zero, suc, ◌+◌, ◌≤◌, ◌<◌, ◌≡◌, ◌≢◌, refl, sym, ap, ◌∙◌, inl, inr, true, false, none, some,
  List, [], ◌∷◌, ◌++◌, append_assoc, append-nil, arith, length, take, drop, get_elem?, Bool-cases,
  length-take, take-drop, take-take, take-append,
}
use native.Mathlib.Decide.{dec_lt}
use flow_indicator.Stream.Tail.{read_at, is_newline_at, last_newline_from}

take-prefix :
    (l : ℕ) (cs file : List ℕ)
    → cs ≡ take (length cs) file
    → (take (length (take l cs)) file ≡ take l cs) × (length (take l cs) ≤ length file)
take-prefix zero cs file h = (refl, omega arith)
take-prefix (suc l) [] file h = (refl, omega arith)
take-prefix (suc l) (c ∷ cs) [] h = cc
take-prefix (suc l) (c ∷ cs) (b ∷ file) h =
    let tails : cs ≡ take (length cs) file = cc in
    let heads : c ≡ b = cc in
    let (e, i) = take-prefix l cs file tails in (rw (heads, e) refl, omega (arith, i))

take_nil : (l : ℕ) → take {A = ℕ} l [] ≡ []
take_nil zero = refl
take_nil (suc l) = refl

pub read-extends :
    (n : ℕ) (file contents : List ℕ) (limit : ℕ)
    → contents ≡ take (length contents) file
    → n ≤ length file
    → (take (n + length (read_at n limit contents)) file ≡ take n file ++ read_at n limit contents)
      × (n + length (read_at n limit contents) ≤ length file)
read-extends zero file contents limit h w =
    let (e, i) = take-prefix limit contents file h in
    let z : zero + length (take limit contents) ≡ length (take limit contents) = omega arith in
    (ap (λ k. take k file) z ∙ e, omega (arith, i))
read-extends (suc n) [] contents limit h w = absurd (omega arith)
read-extends (suc n) (b ∷ file) [] limit h w =
    let none_read : take {A = ℕ} limit [] ≡ [] = take_nil limit in
    rw none_read (
      ap (λ k. take k (b ∷ file)) (let z : suc n + 0 ≡ suc n = omega arith in z)
          ∙ sym (append-nil _),
      omega arith,
    )
read-extends (suc n) (b ∷ file) (c ∷ cs) limit h w =
    let tails : cs ≡ take (length cs) file = cc in
    let (e, i) = read-extends n file cs limit tails (omega arith) in
    let got = read_at n limit cs in
    let z : suc n + length got ≡ suc (n + length got) = omega arith in
    (ap (λ k. take k (b ∷ file)) z ∙ ap (λ ys. b ∷ ys) e, omega (arith, i))

-- The state after a read that leaves the held bytes as they are seen in the file.
pub absorb-held :
    (file partial : List ℕ) (offset k position : ℕ)
    → offset ≤ length file
    → take position file ≡ take offset file ++ partial
    → position ≡ offset + length partial
    → k ≤ length partial
    → (take (offset + k) file ≡ take offset file ++ take k partial)
      × (take position file ≡ take (offset + k) file ++ drop k partial)
absorb-held file partial offset k position w held placed fits =
    let size = length-take offset file w in
    let cut : take (offset + k) file ≡ take offset file ++ take k partial =
      sym (take-take (offset + k) position file (omega arith))
      ∙ ap (take (offset + k)) held
      ∙ ap (λ n. take (n + k) (take offset file ++ partial)) (sym size)
      ∙ take-append k (take offset file) partial in
    (
      cut,
      held
          ∙ ap (λ ys. take offset file ++ ys) (sym (take-drop k partial))
          ∙ sym (append_assoc (take offset file) (take k partial) (drop k partial))
          ∙ ap (λ ys. ys ++ drop k partial) (sym cut),
    )

newline-hit : (b : List ℕ) (i : ℕ) → is_newline_at b i ≡ true → get_elem? b i ≡ some 10
newline-hit b i h = ground arith

newline-miss : (b : List ℕ) (i : ℕ) → is_newline_at b i ≡ false → get_elem? b i ≢ some 10
newline-miss b i h at = ground arith

-- `lastNewline` finds a newline with none after it, or there is none.
pub last_newline_from-found :
    (n : ℕ) (b : List ℕ) (i : ℕ)
    → last_newline_from n b ≡ some i
    → (i < n) × (get_elem? b i ≡ some 10) × ((j : ℕ) → i < j → j < n → get_elem? b j ≢ some 10)
unfolding last_newline_from
last_newline_from-found zero b i h = cc
last_newline_from-found (suc m) b i h = elim (Bool-cases (is_newline_at b m)) [
  | inl hit ↦
      let e : m ≡ i = ground arith in
      let at : get_elem? b m ≡ some 10 = newline-hit b m hit in
      (omega arith, ap (get_elem? b) (sym e) ∙ at, λ j gt lt. absurd (omega arith))
  | inr miss ↦
      let earlier : last_newline_from m b ≡ some i = ground arith in
      let (lt, at, clear) = last_newline_from-found m b i earlier in
      (
        omega arith,
        at,
        λ j gt lt' at'. elim (dec_lt j m) [
          | yes below ↦ clear j gt below at'
          | no ge ↦
              let e : j ≡ m = omega arith in newline-miss b m miss (ap (get_elem? b) (sym e) ∙ at')
        ],
      )
]

pub last_newline_from-none :
    (n : ℕ) (b : List ℕ) → last_newline_from n b ≡ none → (j : ℕ) → j < n → get_elem? b j ≢ some 10
unfolding last_newline_from
last_newline_from-none zero b h j lt = elim lt [ ]
last_newline_from-none (suc m) b h j lt = elim (Bool-cases (is_newline_at b m)) [
  | inl hit ↦ absurd (ground arith)
  | inr miss ↦
      let earlier : last_newline_from m b ≡ none = ground arith in
      let below = last_newline_from-none m b earlier j in
      λ at. elim (dec_lt j m) [
        | yes lt' ↦ below lt' at
        | no ge ↦
            let e : j ≡ m = omega arith in newline-miss b m miss (ap (get_elem? b) (sym e) ∙ at)
      ]
]
