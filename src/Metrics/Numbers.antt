-- ===== src/Metrics/Numbers.antt =====
-- internal/metrics/metrics.go: a metric that may be unknown, `ratio` and `median`.
use flow_indicator.Base.{
  ℕ, ◌+◌, ◌-◌, ◌/◌, ◌%◌, Bool, true, false, List, [], ◌∷◌, none, some, leb, ◌==◌, if◌then◌else◌,
  length, get_elem?,
}
use flow_indicator.Floats.{Float64, Floats, of_int, literal, over, quotient}

-- `unknown` is Value{}; `known x` is Value{Known: true, Num: x}.
pub data Value : Type 0 where
  unknown : Value
  known : Float64 → Value

abbrev pub is_known : Value → Bool
is_known unknown = false
is_known (known x) = true

unfoldable pub at_least : Floats → Value → Float64 → Bool
at_least fl unknown threshold = false
at_least fl (known x) threshold = fl.le threshold x

unfoldable pub at_most : Floats → Value → Float64 → Bool
at_most fl unknown threshold = false
at_most fl (known x) threshold = fl.le x threshold

unfoldable pub ratio : ℕ → ℕ → Value → Value
ratio num den zero_denominator = if den == 0 then zero_denominator else known (quotient num den)

-- sort.Ints.
unfoldable pub insert_sorted : ℕ → List ℕ → List ℕ
insert_sorted x [] = x ∷ []
insert_sorted x (y ∷ ys) = if leb x y then x ∷ y ∷ ys else y ∷ insert_sorted x ys

unfoldable pub sort_ints : List ℕ → List ℕ
unfolding insert_sorted
sort_ints [] = []
sort_ints (x ∷ xs) = insert_sorted x (sort_ints xs)

-- An index of `median` is in range, so the default is never read.
abbrev pub elem_at : List ℕ → ℕ → ℕ
elem_at xs i = elim (get_elem? xs i) [ none ↦ 0 | some x ↦ x ]

unfoldable pub median_sorted : List ℕ → Value
median_sorted sorted =
    let mid = length sorted / 2 in
    if length sorted % 2 == 1
    then known (of_int (elem_at sorted mid))
    else known (over (of_int (elem_at sorted (mid - 1) + elem_at sorted mid)) (literal 2 1))

unfoldable pub median : List ℕ → Value
unfolding median_sorted sort_ints
median [] = unknown
median (x ∷ xs) = median_sorted (sort_ints (x ∷ xs))
