-- ===== src/Panel/Track.antt =====
-- pkg/panel/track.go: which values moved a moment ago, and how strongly a line of some age shows.
use flow_indicator.Base.{
  ℕ, ◌+◌, ◌≡◌, refl, inl, inr, String, Bool, true, false, Option, none, some, List, [], ◌∷◌, same,
  same_iff, ltb, if◌then◌else◌, Bool-cases, arith, sym, ap, ◌∙◌, lookup, insert, lookup-insert,
  contains,
}
use flow_indicator.Floats.{Float64, Floats}
use flow_indicator.Stream.{append_text}
use flow_indicator.Panel.Text.{dim}

-- `Sense`; `SenseNone` is the value of a key that is missing, and no mark.
pub data Sense : Type 0 where
  neutral : Sense
  better : Sense
  worse : Sense

-- `Tracker`: times and durations are nanoseconds.
pub record Tracker : Type 0 where
  pub hold : ℕ
  pub rising_worse : List String
  pub rising_better : List String
  pub prev : Option (List (String × Float64))
  pub moved : List (String × Sense)
  pub at : List (String × ℕ)

-- `NewTracker`.
abbrev pub new_tracker : ℕ → List String → List String → Tracker
new_tracker hold rising_worse rising_better = record {
  hold = hold;
  rising_worse = rising_worse;
  rising_better = rising_better;
  prev = none;
  moved = [];
  at = [];
}

abbrev pub direction : Tracker → String → Bool → Sense
direction t id rose =
    if contains id t.rising_worse
    then if rose then worse else better
    else if contains id t.rising_better
    then if rose then better else worse
    else neutral

-- What a value marks: nothing when there is no earlier one, or it is the same.
abbrev pub mark_of : Floats → Tracker → List (String × Float64) → String → Float64 → Option Sense
mark_of fl t prev id v = elim (lookup id prev) [
  | none ↦ none
  | some old ↦ if fl.eq old v then none else some (direction t id (fl.lt old v))
]

abbrev set_mark : Option Sense → String → ℕ → Tracker → Tracker
set_mark none id now t = t
set_mark (some m) id now t = record t { moved = insert id m t.moved; at = insert id now t.at }

abbrev mark : Floats → List (String × Float64) → ℕ → String × Float64 → Tracker → Tracker
mark fl prev now entry t = set_mark (mark_of fl t prev entry.0 entry.1) entry.0 now t

-- The loop of `Observe`, over a map: its order is not specified, and each key is there once.
abbrev mark_all : Floats → List (String × Float64) → ℕ → List (String × Float64) → Tracker → Tracker
mark_all fl prev now [] t = t
mark_all fl prev now (entry ∷ vals) t = mark fl prev now entry (mark_all fl prev now vals t)

abbrev observe_after :
    Floats → List (String × Float64) → ℕ → Tracker → Option (List (String × Float64)) → Tracker
observe_after fl vals now t none = record t { prev = some vals }
observe_after fl vals now t (some prev) = record (mark_all fl prev now vals t) { prev = some vals }

-- `Observe`, of a map that is not nil.
unfoldable pub observe : Floats → List (String × Float64) → ℕ → Tracker → Tracker
observe fl vals now t = observe_after fl vals now t t.prev

-- Whether the mark of a key is inside the hold window; a missing time is zero.
unfoldable pub held : Tracker → ℕ → String → Bool
held t now id = ltb now (elim (lookup id t.at) [ none ↦ 0 | some at ↦ at ] + t.hold)

abbrev kept : Tracker → ℕ → List (String × Sense) → List (String × Sense)
kept t now [] = []
kept t now (entry ∷ entries) =
    let rest = kept t now entries in if held t now entry.0 then entry ∷ rest else rest

-- `Active`.
unfoldable pub active : Tracker → ℕ → List (String × Sense)
active t now = kept t now t.moved

-- `Decay.Emphasis`, of the bounds `fresh` and `recent`.
unfoldable pub emphasis : ℕ → ℕ → ℕ → String → String
emphasis fresh recent age hue =
    if ltb age fresh then hue else if ltb age recent then append_text dim hue else dim

lookup-kept :
    (t : Tracker) (now : ℕ) (id : String) (entries : List (String × Sense))
    → lookup id (kept t now entries) ≡ (if held t now id then lookup id entries else none)
lookup-kept t now id [] = ground arith
lookup-kept t now id (entry ∷ entries) =
    let ih = lookup-kept t now id entries in
    elim (Bool-cases (held t now entry.0)) [
      | inl h ↦ elim (Bool-cases (same entry.0 id)) [
        | inl e ↦
            let h' : held t now id ≡ true = sym (ap (held t now) ((same_iff entry.0 id).0 e)) ∙ h in
            rw (h, h', e) refl
        | inr e ↦ rw (h, e) ih
      ]
      | inr h ↦ elim (Bool-cases (same entry.0 id)) [
        | inl e ↦
            let h' : held t now id ≡ false =
              sym (ap (held t now) ((same_iff entry.0 id).0 e)) ∙ h in
            rw (h, h') (rw h' at ih)
        | inr e ↦ rw (h, e) ih
      ]
    ]

abbrev marked_by :
    Floats → Tracker → List (String × Float64) → String → Option Float64 → Option Sense
marked_by fl t prev id none = none
marked_by fl t prev id (some v) = mark_of fl t prev id v

-- The mark that a set of values leaves on a key.
abbrev pub marked :
    Floats → Tracker → List (String × Float64) → List (String × Float64) → String → Option Sense
marked fl t prev vals id = marked_by fl t prev id (lookup id vals)

-- The settings of a tracker stay.
abbrev IsSetLike : Tracker → Tracker → Type 0
IsSetLike s t =
    (s.hold ≡ t.hold) × (s.rising_worse ≡ t.rising_worse) × (s.rising_better ≡ t.rising_better)

set_mark-IsSetLike :
    (m : Option Sense) (id : String) (now : ℕ) (t : Tracker) → IsSetLike (set_mark m id now t) t
set_mark-IsSetLike none id now t = (refl, refl, refl)
set_mark-IsSetLike (some m) id now t = (refl, refl, refl)

mark-IsSetLike :
    (fl : Floats) (prev : List (String × Float64)) (now : ℕ) (entry : String × Float64)
    (t : Tracker)
    → IsSetLike (mark fl prev now entry t) t
mark-IsSetLike fl prev now entry t =
    set_mark-IsSetLike (mark_of fl t prev entry.0 entry.1) entry.0 now t

mark_all-IsSetLike :
    (fl : Floats) (prev vals : List (String × Float64)) (now : ℕ) (t : Tracker)
    → IsSetLike (mark_all fl prev now vals t) t
mark_all-IsSetLike fl prev [] now t = (refl, refl, refl)
mark_all-IsSetLike fl prev (entry ∷ vals) now t =
    let (a, b, c) = mark-IsSetLike fl prev now entry (mark_all fl prev now vals t) in
    let (a', b', c') = mark_all-IsSetLike fl prev vals now t in (a ∙ a', b ∙ b', c ∙ c')

mark_of-settings :
    (fl : Floats) (s t : Tracker) (prev : List (String × Float64)) (id : String) (v : Float64)
    → IsSetLike s t
    → mark_of fl s prev id v ≡ mark_of fl t prev id v
mark_of-settings fl s t prev id v (a, b, c) = rw (b, c) refl

-- A key is there once.
unfoldable pub IsMap : List (String × Float64) → Type 0
IsMap [] = Unit
IsMap (entry ∷ entries) = (lookup entry.0 entries ≡ none) × IsMap entries

-- What is known of a key after a mark, from what was known before it.
abbrev over_mark {ℓ} : {A : Type ℓ} → Option Sense → Option A → (Sense → A) → Option A
over_mark none old new = old
over_mark (some m) old new = some (new m)

set_mark-lookup :
    (m : Option Sense) (key id : String) (now : ℕ) (t : Tracker)
    → (lookup id (set_mark m key now t).moved
        ≡ (if same key id then over_mark m (lookup id t.moved) (λ s. s) else lookup id t.moved))
      × (lookup id (set_mark m key now t).at
          ≡ (if same key id then over_mark m (lookup id t.at) (λ s. now) else lookup id t.at))
set_mark-lookup none key id now t = (ground arith, ground arith)
set_mark-lookup (some m) key id now t =
    (lookup-insert key id m t.moved, lookup-insert key id now t.at)

mark_all-lookup :
    (fl : Floats) (prev vals : List (String × Float64)) (now : ℕ) (t : Tracker) (id : String)
    → IsMap vals
    → (lookup id (mark_all fl prev now vals t).moved
        ≡ over_mark (marked fl t prev vals id) (lookup id t.moved) (λ s. s))
      × (lookup id (mark_all fl prev now vals t).at
          ≡ over_mark (marked fl t prev vals id) (lookup id t.at) (λ s. now))
unfolding IsMap
mark_all-lookup fl prev [] now t id p = (refl, refl)
mark_all-lookup fl prev (entry ∷ vals) now t id p =
    let before = mark_all fl prev now vals t in
    let (im, ia) = mark_all-lookup fl prev vals now t id p.1 in
    let settings =
      mark_of-settings fl before t prev entry.0 entry.1 (mark_all-IsSetLike fl prev vals now t) in
    let (am, aa) = set_mark-lookup (mark_of fl before prev entry.0 entry.1) entry.0 id now before in
    elim (Bool-cases (same entry.0 id)) [
      | inl e ↦
          let key : entry.0 ≡ id = (same_iff entry.0 id).0 e in
          let absent : lookup id vals ≡ none = sym (ap (λ k. lookup k vals) key) ∙ p.0 in
          let m : mark_of fl before prev entry.0 entry.1 ≡ mark_of fl t prev id entry.1 =
            settings ∙ ap (λ k. mark_of fl t prev k entry.1) key in
          let unmarked = ap (marked_by fl t prev id) absent in
          let found : lookup id (entry ∷ vals) ≡ some entry.1 = rw e refl in
          let shown = ap (marked_by fl t prev id) found in
          let same_mark = m ∙ sym shown in
          (
            (rw e at am)
                ∙ ap (λ x. over_mark x (lookup id before.moved) (λ s. s)) same_mark
                ∙ ap (λ x. over_mark (marked fl t prev (entry ∷ vals) id) x (λ s. s))
                    (im ∙ ap (λ x. over_mark x (lookup id t.moved) (λ s. s)) unmarked),
            (rw e at aa)
                ∙ ap (λ x. over_mark x (lookup id before.at) (λ s. now)) same_mark
                ∙ ap (λ x. over_mark (marked fl t prev (entry ∷ vals) id) x (λ s. now))
                    (ia ∙ ap (λ x. over_mark x (lookup id t.at) (λ s. now)) unmarked),
          )
      | inr e ↦ (rw e ((rw e at am) ∙ im), rw e ((rw e at aa) ∙ ia))
    ]

-- The sense of a key when its new mark, if any, is shown or over.
abbrev pub over_mark_within : Bool → Option Sense → Option Sense → Option Sense
over_mark_within shown none old = old
over_mark_within shown (some m) old = if shown then some m else none

shown-mark :
    (m : Option Sense) (s t : Tracker) (now later : ℕ) (id : String)
    → s.hold ≡ t.hold
    → lookup id s.moved ≡ over_mark m (lookup id t.moved) (λ x. x)
    → lookup id s.at ≡ over_mark m (lookup id t.at) (λ x. now)
    → (if held s later id then lookup id s.moved else none)
      ≡ over_mark_within
          (ltb later (now + t.hold))
          m
          (if held t later id then lookup id t.moved else none)
unfolding held
shown-mark none s t now later id h moved at = rw (h, moved, at) refl
shown-mark (some m) s t now later id h moved at = rw (h, moved, at) refl

-- After a set of values, with distinct keys, that is not the first, `Active` shows the sense of a
-- key that it marked while the hold window lasts, and of every other key what it showed before.
pub active-observe :
    (fl : Floats) (t : Tracker) (prev vals : List (String × Float64)) (now later : ℕ) (id : String)
    → t.prev ≡ some prev
    → IsMap vals
    → lookup id (active (observe fl vals now t) later)
      ≡ over_mark_within
          (ltb later (now + t.hold))
          (marked fl t prev vals id)
          (lookup id (active t later))
unfolding observe active
active-observe fl t prev vals now later id h p =
    let after = mark_all fl prev now vals t in
    let (hold, b, c) = mark_all-IsSetLike fl prev vals now t in
    let (moved, at) = mark_all-lookup fl prev vals now t id p in
    let whole = record after { prev = some vals } in
    let e : observe fl vals now t ≡ whole = ap (observe_after fl vals now t) h in
    rw e (
      lookup-kept whole later id whole.moved
      ∙ shown-mark (marked fl t prev vals id) whole t now later id hold moved at
      ∙ ap (over_mark_within (ltb later (now + t.hold)) (marked fl t prev vals id))
          (sym (lookup-kept t later id t.moved)))
