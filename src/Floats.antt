-- ===== src/Floats.antt =====
-- The float64 numbers of internal/metrics and internal/state.
--
-- A number is kept as the expression that computes it, and the comparisons of the hardware are a
-- record that the rules take as a parameter: nothing is assumed here of how a quotient is rounded.
use flow_indicator.Base.{ℕ, ◌+◌, ◌*◌, ◌^◌, ◌≤◌, ◌<◌, ◌≡◌, Bool, true, ltb, leb, ◌==◌}

-- `literal a b` is the constant a/b, `of_int n` is float64(n), and the rest are `/`, `*` and `+`;
-- `seconds n` is Duration.Seconds of n nanoseconds.
pub data Float64 : Type 0 where
  literal : ℕ → ℕ → Float64
  of_int : ℕ → Float64
  seconds : ℕ → Float64
  over : Float64 → Float64 → Float64
  times : Float64 → Float64 → Float64
  plus : Float64 → Float64 → Float64

-- `<=`, `<` and `==` of float64.
pub record Floats : Type 0 where
  pub le : Float64 → Float64 → Bool
  pub lt : Float64 → Float64 → Bool
  pub eq : Float64 → Float64 → Bool

-- A share of whole numbers, as `float64(num) / float64(den)` computes it.
abbrev pub quotient : ℕ → ℕ → Float64
quotient num den = over (of_int num) (of_int den)

-- What IEEE 754 gives for `<=` away from NaN: it is transitive, and since a quotient of exactly
-- represented integers is correctly rounded, a smaller quotient never rounds above a larger one.
pub record IsRounded (fl : Floats) : Type 0 where
  pub le_trans : (a b c : Float64) → fl.le a b ≡ true → fl.le b c ≡ true → fl.le a c ≡ true
  pub quotient_mono :
      (n d m e : ℕ)
      → n < 2 ^ 53
      → d < 2 ^ 53
      → m < 2 ^ 53
      → e < 2 ^ 53
      → 0 < d
      → 0 < e
      → n * e ≤ m * d
      → fl.le (quotient n d) (quotient m e) ≡ true

-- The exact rational that an expression denotes, as a numerator and a denominator.
abbrev pub Rational : Type 0
Rational = record { num : ℕ; den : ℕ }

abbrev rational : ℕ → ℕ → Rational
rational n d = record { num = n; den = d }

abbrev pub value_of : Float64 → Rational
value_of (literal a b) = rational a b
value_of (of_int n) = rational n 1
value_of (seconds n) = rational n (10 ^ 9)
value_of (over x y) =
    rational ((value_of x).num * (value_of y).den) ((value_of x).den * (value_of y).num)
value_of (times x y) =
    rational ((value_of x).num * (value_of y).num) ((value_of x).den * (value_of y).den)
value_of (plus x y) =
    rational ((value_of x).num * (value_of y).den + (value_of y).num * (value_of x).den)
      ((value_of x).den * (value_of y).den)

abbrev compare_by : (ℕ → ℕ → Bool) → Float64 → Float64 → Bool
compare_by f x y = f ((value_of x).num * (value_of y).den) ((value_of y).num * (value_of x).den)

-- Comparison without rounding: one way in which the comparisons can be met.
abbrev pub exact : Floats
exact = record { le = compare_by leb; lt = compare_by ltb; eq = compare_by λ a b. a == b }
