-- ===== src/Metrics/Bounds.antt =====
-- What the metrics promise: shares within 0 and 1, known values, order; internal/metrics.
use flow_indicator.Base.{
  ℕ, zero, suc, ◌+◌, ◌*◌, ◌^◌, ◌≤◌, ◌<◌, ◌≡◌, ◌↔◌, inl, inr, true, false, some, arith, ◌==◌,
  Bool-cases,
}
use flow_indicator.Floats.{Float64, Floats, IsRounded, quotient}
use flow_indicator.Metrics.Numbers.{unknown, known, is_known, ratio}
use flow_indicator.Metrics.Families.{
  Buckets, total, forward_work_share, control_plane_burden, restate_burden,
}
use flow_indicator.Metrics.Bands.{rank, band_ascending, band_descending}
use flow_indicator.Metrics.Assessments.{
  Cycle, pollution_assessment, assess_repaired, assess_unverified, clean, polluted, failed,
}

-- A repair is assessed clean exactly if the target is known to be repaired, nothing was expanded,
-- and no correction followed at once.
pub pollution_assessment-clean :
    (c : Cycle)
    → ((pollution_assessment c).status ≡ clean)
      ↔ ((c.target_repaired ≡ some true) × (c.expansions ≡ 0) × (c.immediate_correction ≡ false))
unfolding pollution_assessment assess_repaired assess_unverified
pollution_assessment-clean c = ground arith

-- A repair is assessed polluted exactly if the target is known to be repaired and something was
-- expanded, and failed exactly if the target is known not to be repaired.
pub pollution_assessment-judged :
    (c : Cycle)
    → (((pollution_assessment c).status ≡ polluted)
        ↔ ((c.target_repaired ≡ some true) × (0 < c.expansions)))
      × (((pollution_assessment c).status ≡ failed) ↔ (c.target_repaired ≡ some false))
unfolding pollution_assessment assess_repaired assess_unverified
pollution_assessment-judged c = (ground arith, ground arith)

-- A share of a part in a whole is known exactly if the whole is not empty.
share_known : (n d : ℕ) → (is_known (ratio n d unknown) ≡ true) ↔ (0 < d)
unfolding ratio
share_known n d = ground arith

mul_le : (n m k : ℕ) → n ≤ m → n * k ≤ m * k
mul_le n m zero h = omega arith
mul_le n m (suc k) h = omega (arith, mul_le n m k h)

share_at_most :
    (fl : Floats) (n m d : ℕ) (x y : Float64)
    → IsRounded fl
    → d < 2 ^ 53
    → n ≤ m
    → m ≤ d
    → ratio n d unknown ≡ known x
    → ratio m d unknown ≡ known y
    → fl.le x y ≡ true
unfolding ratio
share_at_most fl n m d x y r b le le' hx hy = elim (Bool-cases (d == 0)) [
  | inl z ↦ absurd (ground arith)
  | inr z ↦
      let ex : quotient n d ≡ x = ground arith in
      let ey : quotient m d ≡ y = ground arith in
      rw (← ex, ← ey)
        (r.quotient_mono n d m d (omega arith) b (omega arith) b (ground arith) (ground arith)
          (mul_le n m d le))
]

share_at_most_one :
    (fl : Floats) (n d : ℕ) (x : Float64)
    → IsRounded fl
    → d < 2 ^ 53
    → n ≤ d
    → ratio n d unknown ≡ known x
    → fl.le x (quotient 1 1) ≡ true
unfolding ratio
share_at_most_one fl n d x r b le hx = elim (Bool-cases (d == 0)) [
  | inl z ↦ absurd (ground arith)
  | inr z ↦
      let ex : quotient n d ≡ x = ground arith in
      rw (← ex) (
        r.quotient_mono n d 1 1 (omega arith) b (omega arith) (omega arith) (ground arith)
          (omega arith) (omega arith))
]

-- With comparisons that are transitive and quotients that round monotonically, and fewer than
-- 2^53 characters in all, the restate share is at most the control burden, and the control burden
-- and the forward share are at most 1, where they are known.
pub shares_bounded :
    (fl : Floats) (b : Buckets) (x y z : Float64)
    → IsRounded fl
    → total b < 2 ^ 53
    → restate_burden b ≡ known x
    → control_plane_burden b ≡ known y
    → forward_work_share b ≡ known z
    → (fl.le x y ≡ true) × (fl.le y (quotient 1 1) ≡ true) × (fl.le z (quotient 1 1) ≡ true)
unfolding restate_burden control_plane_burden forward_work_share total
shares_bounded fl b x y z r lt hx hy hz = (
  share_at_most fl b.restate (b.control + b.recovery + b.restate) (total b) x y r lt (omega arith)
      (omega arith) hx hy,
  share_at_most_one fl (b.control + b.recovery + b.restate) (total b) y r lt (omega arith) hy,
  share_at_most_one fl b.forward (total b) z r lt (omega arith) hz,
)

-- The forward share and the control burden are known exactly if some character was counted.
shares_known :
    (b : Buckets)
    → ((is_known (forward_work_share b) ≡ true) ↔ (0 < total b))
      × ((is_known (control_plane_burden b) ≡ true) ↔ (0 < total b))
unfolding control_plane_burden forward_work_share
shares_known b =
    (share_known b.forward (total b), share_known (b.control + b.recovery + b.restate) (total b))

-- With comparisons that are transitive and quotients that round monotonically, a larger
-- measurement never gets a better band where less is better, nor a worse band where more is
-- better.
pub bands_monotone :
    (fl : Floats) (x y g m : Float64)
    → IsRounded fl
    → fl.le x y ≡ true
    → (rank (band_descending fl (known x) g m) ≤ rank (band_descending fl (known y) g m))
      × (rank (band_ascending fl (known y) g m) ≤ rank (band_ascending fl (known x) g m))
unfolding band_descending band_ascending
bands_monotone fl x y g m r h =
    let a = r.le_trans x y g h in
    let b = r.le_trans x y m h in
    let c = λ (k : fl.le g x ≡ true). r.le_trans g x y k h in
    let d = λ (k : fl.le m x ≡ true). r.le_trans m x y k h in
    (ground (arith, a, b), ground (arith, c, d))
