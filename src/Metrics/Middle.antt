-- ===== src/Metrics/Middle.antt =====
-- What a median is: half of the numbers lie on either side of it; internal/metrics/metrics.go.
use flow_indicator.Base.{
  ℕ, zero, suc, ◌+◌, ◌-◌, ◌*◌, ◌/◌, ◌%◌, ◌≤◌, ◌<◌, ◌≡◌, ◌⊎◌, refl, inl, inr, List, [], ◌∷◌, leb,
  ltb, ◌==◌, if◌then◌else◌, length, All, Bool-cases, arith,
}
use flow_indicator.Floats.{of_int, literal, over}
use flow_indicator.Metrics.Numbers.{known, insert_sorted, sort_ints, elem_at, median, median_sorted}

-- How many numbers are less than `v`, and how many are greater.
abbrev pub below_count : ℕ → List ℕ → ℕ
below_count v [] = 0
below_count v (x ∷ xs) = (if ltb x v then 1 else 0) + below_count v xs

abbrev pub above_count : ℕ → List ℕ → ℕ
above_count v [] = 0
above_count v (x ∷ xs) = (if ltb v x then 1 else 0) + above_count v xs

insert_sorted-counts :
    (v x : ℕ) (xs : List ℕ)
    → (below_count v (insert_sorted x xs) ≡ below_count v (x ∷ xs))
      × (above_count v (insert_sorted x xs) ≡ above_count v (x ∷ xs))
      × (length (insert_sorted x xs) ≡ suc (length xs))
unfolding insert_sorted
insert_sorted-counts v x [] = (refl, refl, refl)
insert_sorted-counts v x (y ∷ ys) = elim (Bool-cases (leb x y)) [
  | inl le ↦ rw (insert_sorted, le) (refl, refl, refl)
  | inr gt ↦
      let (b, a, l) = insert_sorted-counts v x ys in
      rw (insert_sorted, gt) (omega (arith, b), omega (arith, a), omega (arith, l))
]

sort_ints-counts :
    (v : ℕ) (xs : List ℕ)
    → (below_count v (sort_ints xs) ≡ below_count v xs)
      × (above_count v (sort_ints xs) ≡ above_count v xs)
      × (length (sort_ints xs) ≡ length xs)
unfolding sort_ints
sort_ints-counts v [] = (refl, refl, refl)
sort_ints-counts v (x ∷ xs) =
    let (b, a, l) = sort_ints-counts v xs in
    let (b', a', l') = insert_sorted-counts v x (sort_ints xs) in
    (omega (arith, b, b'), omega (arith, a, a'), omega (arith, l, l'))

pub IsSorted : List ℕ → Type 0
IsSorted [] = Unit
IsSorted (x ∷ xs) = All (λ y. x ≤ y) xs × IsSorted xs

All-le : (x y : ℕ) (xs : List ℕ) → x ≤ y → All (λ z. y ≤ z) xs → All (λ z. x ≤ z) xs
All-le x y [] h a = tt
All-le x y (z ∷ zs) h a = (omega (arith, a.0), All-le x y zs h a.1)

insert_sorted-All :
    (b x : ℕ) (xs : List ℕ) → b ≤ x → All (λ z. b ≤ z) xs → All (λ z. b ≤ z) (insert_sorted x xs)
unfolding insert_sorted
insert_sorted-All b x [] h a = (h, tt)
insert_sorted-All b x (y ∷ ys) h a = elim (Bool-cases (leb x y)) [
  | inl le ↦ rw (insert_sorted, le) (h, a)
  | inr gt ↦ rw (insert_sorted, gt) (a.0, insert_sorted-All b x ys h a.1)
]

insert_sorted-IsSorted : (x : ℕ) (xs : List ℕ) → IsSorted xs → IsSorted (insert_sorted x xs)
unfolding insert_sorted IsSorted
insert_sorted-IsSorted x [] v = (tt, tt)
insert_sorted-IsSorted x (y ∷ ys) v = elim (Bool-cases (leb x y)) [
  | inl le ↦ rw (insert_sorted, le) ((ground arith, All-le x y ys (ground arith) v.0), v)
  | inr gt ↦
      rw (insert_sorted, gt)
        (insert_sorted-All y x ys (ground arith) v.0, insert_sorted-IsSorted x ys v.1)
]

sort_ints-IsSorted : (xs : List ℕ) → IsSorted (sort_ints xs)
unfolding sort_ints IsSorted
sort_ints-IsSorted [] = tt
sort_ints-IsSorted (x ∷ xs) = insert_sorted-IsSorted x (sort_ints xs) (sort_ints-IsSorted xs)

below_count-le : (v : ℕ) (xs : List ℕ) → All (λ z. v ≤ z) xs → below_count v xs ≡ 0
below_count-le v [] a = refl
below_count-le v (x ∷ xs) a = ground (arith, a.0, below_count-le v xs a.1)

above_count-length : (v : ℕ) (xs : List ℕ) → above_count v xs ≤ length xs
above_count-length v [] = omega arith
above_count-length v (x ∷ xs) = ground (arith, above_count-length v xs)

elem_at-le : (x i : ℕ) (xs : List ℕ) → i < length xs → All (λ z. x ≤ z) xs → x ≤ elem_at xs i
elem_at-le x i [] h a = absurd (omega arith)
elem_at-le x zero (y ∷ ys) h a = a.0
elem_at-le x (suc i) (y ∷ ys) h a = elem_at-le x i ys (omega arith) a.1

-- At most `i` numbers are less than the one at `i`, and at most those after it are greater.
elem_at-counts :
    (xs : List ℕ) (i : ℕ)
    → IsSorted xs
    → i < length xs
    → (below_count (elem_at xs i) xs ≤ i) × (above_count (elem_at xs i) xs + suc i ≤ length xs)
unfolding IsSorted
elem_at-counts [] i v h = absurd (omega arith)
elem_at-counts (x ∷ xs) zero v h =
    (ground (arith, below_count-le x xs v.0), ground (arith, above_count-length x xs))
elem_at-counts (x ∷ xs) (suc i) v h =
    let (b, a) = elem_at-counts xs i v.1 (omega arith) in
    let le = elem_at-le x i xs (omega arith) v.0 in (ground (arith, b), ground (arith, a, le))

-- Half of the numbers at most are less than the middle one, or the upper of the two, and half at
-- most are greater than it, or than the lower; less than half lie beyond them on the other side.
abbrev pub IsMiddle : List ℕ → ℕ → ℕ → Type 0
IsMiddle ys a b =
    (2 * below_count a ys < length ys)
    × (2 * above_count a ys ≤ length ys)
    × (2 * below_count b ys ≤ length ys)
    × (2 * above_count b ys < length ys)

sorted-IsMiddle :
    (ys : List ℕ) (i j : ℕ)
    → j < length ys
    → i ≤ j
    → length ys ≤ 2 * i + 2
    → 2 * i < length ys
    → length ys ≤ 2 * j + 1
    → 2 * j ≤ length ys
    → IsMiddle ys (elem_at (sort_ints ys) i) (elem_at (sort_ints ys) j)
sorted-IsMiddle ys i j h k p q r t =
    let s = sort_ints ys in
    let len : length s ≡ length ys = (sort_ints-counts 0 ys).2 in
    let (bi, ai) = elem_at-counts s i (sort_ints-IsSorted ys) (omega (arith, len)) in
    let (bj, aj) = elem_at-counts s j (sort_ints-IsSorted ys) (omega (arith, len)) in
    let (eb, ea, _) = sort_ints-counts (elem_at s i) ys in
    let (fb, fa, _) = sort_ints-counts (elem_at s j) ys in
    (
      omega (arith, bi, eb, len),
      omega (arith, ai, ea, len),
      omega (arith, bj, fb, len),
      omega (arith, aj, fa, len),
    )

-- The median of some numbers is, for an odd number of them, a number with less than half of them
-- below and less than half above it; for an even number, the mean of two numbers: one with less
-- than half below and half at most above it, and one with half at most below and less than half
-- above it.
pub median-IsMiddle :
    (x : ℕ) (xs : List ℕ)
    → (a : ℕ) × (b : ℕ) × IsMiddle (x ∷ xs) a b
      × (((length (x ∷ xs) % 2 ≡ 1) × (a ≡ b) × (median (x ∷ xs) ≡ known (of_int a)))
          ⊎ ((length (x ∷ xs) % 2 ≡ 0)
              × (median (x ∷ xs) ≡ known (over (of_int (a + b)) (literal 2 1)))))
unfolding median median_sorted
median-IsMiddle x xs =
    let ys = x ∷ xs in
    let s = sort_ints ys in
    let n = length s in
    let len : length s ≡ length ys = (sort_ints-counts 0 ys).2 in
    elim (Bool-cases (n % 2 == 1)) [
      | inl odd ↦
          let m = elem_at s (n / 2) in
          (
            m,
            m,
            sorted-IsMiddle ys (n / 2) (n / 2) (ground (arith, len)) (omega arith)
                (ground (arith, len)) (ground (arith, len)) (ground (arith, len))
                (ground (arith, len)),
            inl (ground (arith, len), refl, rw (median, median_sorted, odd) refl),
          )
      | inr even ↦ (
        elem_at s (n / 2 - 1),
        elem_at s (n / 2),
        sorted-IsMiddle ys (n / 2 - 1) (n / 2) (ground (arith, len)) (omega arith)
            (ground (arith, len)) (ground (arith, len)) (ground (arith, len)) (ground (arith, len)),
        inr (ground (arith, len), rw (median, median_sorted, even) refl),
      )
    ]
