-- ===== src/Tests/Numbers.antt =====
-- The metrics on small numbers, with comparisons of rounded numbers.
use flow_indicator.Base.{
  ℕ, suc, ◌*◌, ◌/◌, ◌^◌, ◌≤◌, ◌<◌, ◌≡◌, ◌↔◌, refl, true, false, some, List, [], ◌∷◌, arith, leb,
  ltb, ◌==◌, leb→le, le→leb, length, ◌%◌, ◌+◌, ◌⊎◌,
}
use native.Mathlib.Nat.{mul-le-mul_right, mul-lt-mul_of_pos_right, lt_of_mul-lt-mul_right}
use flow_indicator.Floats.{Float64, Floats, IsRounded, quotient, value_of, literal, of_int, over}
use flow_indicator.Metrics.{
  known, median, Buckets, total, restate_burden, control_plane_burden, forward_work_share, Cycle,
  pollution_assessment, clean, polluted, failed, rank, band_descending, band_ascending,
}
use flow_indicator.Metrics.Middle.{IsMiddle, median-IsMiddle}
use flow_indicator.Metrics.Bounds.{
  pollution_assessment-clean, pollution_assessment-judged, shares_bounded, bands_monotone,
}

-- A number rounded down to whole parts of 2^53.
abbrev parts : ℕ → ℕ → ℕ
parts n d = n * 2 ^ 53 / d

abbrev rounded : Float64 → ℕ
rounded x = parts ((value_of x).num) ((value_of x).den)

abbrev coarse : Floats
coarse = record {
  le = λ x y. leb (rounded x) (rounded y);
  lt = λ x y. ltb (rounded x) (rounded y);
  eq = λ x y. rounded x == rounded y;
}

cross_mono :
    (k n m d e t u : ℕ) → 0 < d → n * e ≤ m * d → t * d ≤ n * k → m * k < suc u * e → t < suc u
cross_mono k n m d e t u p h a b =
    let a' : t * d * e ≤ n * k * e = mul-le-mul_right e a in
    let h' : n * e * k ≤ m * d * k = mul-le-mul_right k h in
    let b' : m * k * d < suc u * e * d = mul-lt-mul_of_pos_right b p in
    lt_of_mul-lt-mul_right (d * e) (omega arith)

parts_mono : (n m d e : ℕ) → 0 < d → 0 < e → n * e ≤ m * d → parts n d ≤ parts m e
parts_mono n m d e p q h =
    let a : parts n d * d ≤ n * 2 ^ 53 = omega arith in
    let b : m * 2 ^ 53 < suc (parts m e) * e = omega arith in
    omega (arith, cross_mono (2 ^ 53) n m d e (parts n d) (parts m e) p h a b)

coarse-IsRounded : IsRounded coarse
coarse-IsRounded = record {
  le_trans = λ a b c h k.
      le→leb (rounded a) (rounded c)
        (omega (arith, leb→le (rounded a) (rounded b) h, leb→le (rounded b) (rounded c) k));
  quotient_mono = λ n d m e _ _ _ _ p q h.
      le→leb (rounded (quotient n d)) (rounded (quotient m e))
        (parts_mono (n * 1) (m * 1) (1 * d) (1 * e) (omega arith) (omega arith) (omega arith));
}

abbrev counts : Buckets
counts = record { forward = 6; control = 2; recovery = 1; restate = 1; other = 0 }

few : total counts < 2 ^ 53
unfolding total
few = omega arith

restate_is : restate_burden counts ≡ known (quotient 1 10)
unfolding restate_burden
restate_is = refl

control_is : control_plane_burden counts ≡ known (quotient 4 10)
unfolding control_plane_burden
control_is = refl

forward_is : forward_work_share counts ≡ known (quotient 6 10)
unfolding forward_work_share
forward_is = refl

shares_bounded_example :
    (coarse.le (quotient 1 10) (quotient 4 10) ≡ true)
    × (coarse.le (quotient 4 10) (quotient 1 1) ≡ true)
    × (coarse.le (quotient 6 10) (quotient 1 1) ≡ true)
shares_bounded_example =
    shares_bounded coarse counts (quotient 1 10) (quotient 4 10) (quotient 6 10) coarse-IsRounded
      few restate_is control_is forward_is

abbrev four : List ℕ
four = 3 ∷ 9 ∷ 4 ∷ 1 ∷ []

median-IsMiddle_example :
    (a : ℕ) × (b : ℕ) × IsMiddle four a b
    × (((length four % 2 ≡ 1) × (a ≡ b) × (median four ≡ known (of_int a)))
        ⊎ ((length four % 2 ≡ 0) × (median four ≡ known (over (of_int (a + b)) (literal 2 1)))))
median-IsMiddle_example = median-IsMiddle 3 (9 ∷ 4 ∷ 1 ∷ [])

smaller : coarse.le (quotient 1 10) (quotient 4 10) ≡ true
smaller = refl

bands_monotone_example :
    (rank (band_descending coarse (known (quotient 1 10)) (literal 25 100) (literal 50 100))
      ≤ rank (band_descending coarse (known (quotient 4 10)) (literal 25 100) (literal 50 100)))
    × (rank (band_ascending coarse (known (quotient 4 10)) (literal 25 100) (literal 50 100))
        ≤ rank (band_ascending coarse (known (quotient 1 10)) (literal 25 100) (literal 50 100)))
bands_monotone_example =
    bands_monotone coarse (quotient 1 10) (quotient 4 10) (literal 25 100) (literal 50 100)
      coarse-IsRounded smaller

abbrev repaired : Cycle
repaired = record {
  target_repaired = some true;
  expansions = 0;
  immediate_correction = false;
  writes = 1;
  named = true;
}

pollution_assessment-clean_example : ((pollution_assessment repaired).status ≡ clean) ↔ (
    (repaired.target_repaired ≡ some true)
    × (repaired.expansions ≡ 0)
    × (repaired.immediate_correction ≡ false))
pollution_assessment-clean_example = pollution_assessment-clean repaired

pollution_assessment-judged_example :
    (((pollution_assessment repaired).status ≡ polluted)
      ↔ ((repaired.target_repaired ≡ some true) × (0 < repaired.expansions)))
    × (((pollution_assessment repaired).status ≡ failed) ↔ (repaired.target_repaired ≡ some false))
pollution_assessment-judged_example = pollution_assessment-judged repaired
