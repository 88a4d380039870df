-- ===== src/Config/Validation/Accepted.antt =====
-- Which configurations `Validate` lets through; internal/config/config.go.
use flow_indicator.Base.{
  ℕ, ◌≡◌, ◌↔◌, refl, inl, inr, Bool, true, false, not, ◌&&◌, ◌||◌, Option, none, some, List, [],
  ◌∷◌, same, ℤ, pos, negsuc, ◌≤◌, below, All, Bool-cases, Option-cases, arith,
}
use flow_indicator.Floats.{Floats, literal}
use flow_indicator.Config.Validation.{
  FileConfig, Check, checks, Invalid, first_too_small, check_mode, check_rest, validate,
}

-- The mode needs a model's address and name, or none.
abbrev pub is_served : FileConfig → Bool
is_served c =
    same c.mode "none"
    || same c.mode "heuristic"
    || ((same c.mode "openai-compatible" || same c.mode "hybrid")
        && not (same c.endpoint "")
        && not (same c.model ""))

-- Every count is large enough.
abbrev pub Enough : Check → Type 0
Enough ch = below ch.got ch.least ≡ false

first_too_small-none : (cs : List Check) → (first_too_small cs ≡ none) ↔ All Enough cs
unfolding first_too_small
first_too_small-none [] = ((λ h. tt), λ h. refl)
first_too_small-none (ch ∷ rest) = elim (Bool-cases (below ch.got ch.least)) [
  | inl small ↦ rw (All, small) ((λ h. cc), λ h. cc (h.0))
  | inr enough ↦
      let ih = first_too_small-none rest in
      rw (All, enough) ((λ h. (refl, ih.0 h)), λ h. ih.1 (h.1))
]

check_mode-none : (c : FileConfig) → (check_mode c ≡ none) ↔ (is_served c ≡ true)
unfolding check_mode
check_mode-none c = ((λ h. ground arith), λ h. ground arith)

check_rest-none :
    (fl : Floats) (c : FileConfig)
    → check_rest fl c ≡ none
    → (fl.le c.serialization_warn (literal 0 1) ≡ false)
      × (fl.lt c.serialization_high c.serialization_warn ≡ false)
      × (is_served c ≡ true)
unfolding check_rest
check_rest-none fl c h = elim (Bool-cases (fl.le c.serialization_warn (literal 0 1))) [
  | inl bad ↦ absurd (ground arith)
  | inr positive ↦ elim (Bool-cases (fl.lt c.serialization_high c.serialization_warn)) [
    | inl bad ↦ absurd (ground arith)
    | inr ordered ↦
        let mode : check_mode c ≡ none = ground arith in
        (positive, ordered, (check_mode-none c).0 mode)
  ]
]

-- A whole number that is not below `least`.
abbrev pub AtLeast : ℕ → ℤ → Type 0
AtLeast least (pos n) = least ≤ n
AtLeast least (negsuc n) = ⊥

-- The counts that a configuration may have.
abbrev pub InRange : FileConfig → Type 0
InRange c =
    AtLeast 1 c.rolling_turns
    × AtLeast 1 c.correction_durability_turns
    × AtLeast 1 c.dereference_outcome_turns
    × AtLeast 1 c.trend_durability_turns
    × AtLeast 1 c.minimum_control_baseline
    × AtLeast 1 c.thrash_repair_depth
    × AtLeast 1 c.repeated_obligations_warn
    × AtLeast 1 c.live_deadline_ms
    × AtLeast 1 c.workers
    × AtLeast 1 c.max_queue
    × AtLeast 0 c.snippet_chars

below-AtLeast : (z : ℤ) (n : ℕ) → below z (pos n) ≡ false → AtLeast n z
below-AtLeast (pos m) n h = ground arith
below-AtLeast (negsuc m) n h = cc

AtLeast-below : (z : ℤ) (n : ℕ) → AtLeast n z → below z (pos n) ≡ false
AtLeast-below (pos m) n h = ground arith
AtLeast-below (negsuc m) n h = absurd h

checks-InRange : (c : FileConfig) → All Enough (checks c) ↔ InRange c
checks-InRange c = (
  λ (a, (b, (d, (e, (f, (g, (h, (i, (j, (k, (l, _))))))))))). (
    below-AtLeast _ 1 a,
    below-AtLeast _ 1 b,
    below-AtLeast _ 1 e,
    below-AtLeast _ 1 d,
    below-AtLeast _ 1 f,
    below-AtLeast _ 1 g,
    below-AtLeast _ 1 h,
    below-AtLeast _ 1 j,
    below-AtLeast _ 1 k,
    below-AtLeast _ 1 l,
    below-AtLeast _ 0 i,
  ),
  λ (a, b, e, d, f, g, h, j, k, l, i). (
    AtLeast-below _ 1 a,
    (
      AtLeast-below _ 1 b,
      (
        AtLeast-below _ 1 d,
        (
          AtLeast-below _ 1 e,
          (
            AtLeast-below _ 1 f,
            (
              AtLeast-below _ 1 g,
              (
                AtLeast-below _ 1 h,
                (
                  AtLeast-below _ 0 i,
                  (AtLeast-below _ 1 j, (AtLeast-below _ 1 k, (AtLeast-below _ 1 l, tt))),
                ),
              ),
            ),
          ),
        ),
      ),
    ),
  ),
)

-- `Validate` reports no error exactly if the number of characters of a snippet is not negative,
-- each of the other ten counts is at least 1, the warning
-- threshold is above 0, the high threshold is not below it, and the mode is none, heuristic, or
-- one of the two with a model and then has an endpoint and a model.
pub validate-none :
    (fl : Floats) (c : FileConfig)
    → (validate fl c ≡ none) ↔ (
        InRange c
        × (fl.le c.serialization_warn (literal 0 1) ≡ false)
        × (fl.lt c.serialization_high c.serialization_warn ≡ false)
        × (is_served c ≡ true))
unfolding validate check_rest
validate-none fl c = (
  λ h. elim (Option-cases (first_too_small (checks c))) [
    | inr (e, small) ↦
        absurd (let bad : ◌≡◌ {A = Option Invalid} (some e) none = rw (validate, small) at h in cc)
    | inl none_small ↦
        let rest : check_rest fl c ≡ none = rw (validate, none_small) at h in
        let (positive, ordered, served) = check_rest-none fl c rest in
        (
          (checks-InRange c).0 ((first_too_small-none (checks c)).0 none_small),
          positive,
          ordered,
          served,
        )
  ],
  λ (enough, positive, ordered, served).
      let none_small = (first_too_small-none (checks c)).1 ((checks-InRange c).1 enough) in
      let mode = (check_mode-none c).1 served in rw (none_small, positive, ordered) mode,
)
