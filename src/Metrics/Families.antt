-- ===== src/Metrics/Families.antt =====
-- internal/metrics: transmission.go, control.go, obligation.go, dereference.go, recovery.go.
use flow_indicator.Base.{
  ℕ, ◌+◌, ◌-◌, min, ◌^◌, ◌||◌, List, [], ◌∷◌, ltb, ◌==◌, if◌then◌else◌, length,
}
use flow_indicator.Floats.{Floats, of_int, over, quotient, seconds}
use flow_indicator.Metrics.Numbers.{Value, unknown, known, ratio, median}

unfoldable pub baseline_chars : List ℕ → ℕ → Value
unfolding median
baseline_chars recent min_baseline =
    if ltb (length recent) min_baseline then unknown else median recent

unfoldable pub serialization_inflation : Floats → ℕ → Value → Value
serialization_inflation fl current_chars unknown = unknown
serialization_inflation fl current_chars (known x) =
    if fl.eq x (of_int 0) then unknown else known (over (of_int current_chars) x)

pub record Buckets : Type 0 where
  pub forward : ℕ
  pub control : ℕ
  pub recovery : ℕ
  pub restate : ℕ
  pub other : ℕ

unfoldable pub total : Buckets → ℕ
total b = b.forward + b.control + b.recovery + b.restate + b.other

unfoldable pub forward_work_share : Buckets → Value
unfolding total ratio
forward_work_share b = ratio b.forward (total b) unknown

unfoldable pub control_plane_burden : Buckets → Value
unfolding total ratio
control_plane_burden b = ratio (b.control + b.recovery + b.restate) (total b) unknown

unfoldable pub restate_burden : Buckets → Value
unfolding total ratio
restate_burden b = ratio b.restate (total b) unknown

unfoldable pub obligation_repeat_ratio : ℕ → ℕ → Value
obligation_repeat_ratio repeated unresolved =
    if unresolved == 0 then known (of_int 0) else known (quotient repeated unresolved)

abbrev pub sum : List ℕ → ℕ
sum [] = 0
sum (x ∷ xs) = x + sum xs

unfoldable pub mean_repeat_count : List ℕ → Value
mean_repeat_count repeats =
    if length repeats == 0 then unknown else known (quotient (sum repeats) (length repeats))

unfoldable pub median_candidate_age : List ℕ → Value
unfolding median
median_candidate_age ages = median ages

unfoldable pub dereference_reliability : ℕ → ℕ → Value
unfolding ratio
dereference_reliability success failure = ratio success (success + failure) unknown

unfoldable pub repair_magnification : ℕ → ℕ → Value
repair_magnification recovery_chars pointer_chars =
    if pointer_chars == 0 then unknown else known (quotient recovery_chars pointer_chars)

-- A time.Time is its distance from Go's zero time in nanoseconds, and 0 is the zero time. Sub
-- saturates at the largest Duration.
unfoldable pub recovery_duration : ℕ → ℕ → Value
recovery_duration start end =
    if start == 0 || end == 0 || ltb end start
    then unknown
    else known (seconds (min (end - start) (2 ^ 63 - 1)))
