-- ===== src/State/Times.antt =====
-- Which payloads json.Marshal takes: the times that an episode holds; internal/state/repair.go.
pub mod Settled
pub mod Projected
pub mod Drafts
pub mod Passes
pub mod Records
use flow_indicator.Base.{
  ℕ, zero, suc, subst, ◌<◌, ◌*◌, ◌^◌, ◌≡◌, Bool, true, false, Option, none, some, List, [], ◌∷◌,
  inl, inr, get_elem?, update_at, All, ◌==◌, if◌then◌else◌, Bool-cases, arith,
}
use flow_indicator.State.Repair.{Repair, touch}
use flow_indicator.State.Payloads.{Payload, Draft, repair_payload, repair_status_payload}
use flow_indicator.State.Episodes.Store.{Episodes, Step}

-- The nanoseconds from Go's zero time, the start of year 1, to the end of year 9999.
abbrev pub nanoseconds : ℕ
nanoseconds = 3652059 * 86400 * 10 ^ 9

-- A time that time.Time.MarshalJSON takes: its year has at most four digits.
unfoldable pub InYears : ℕ → Type 0
InYears t = t < nanoseconds

pub zero-InYears : InYears 0
unfolding InYears
zero-InYears = omega arith

abbrev pub ClosedInYears : Option ℕ → Type 0
ClosedInYears none = Unit
ClosedInYears (some t) = InYears t

abbrev pub IsTimed : Repair → Type 0
IsTimed r = InYears r.start × InYears r.last_activity × ClosedInYears r.closed

-- The payloads that hold an episode are the only ones with a time.Time; a time in another payload
-- is a text already.
abbrev pub Fits : Payload → Type 0
Fits (repair_payload r license) = IsTimed r
Fits (repair_status_payload r status reason) = IsTimed r
Fits _ = Unit

-- What encoding/json documents, and the code relies on: times are refused by their year alone.
abbrev pub IsEncoder : (Payload → Bool) → Type 0
IsEncoder marshals = (x : Payload) → Fits x → marshals x ≡ true

abbrev pub AllFit : List Draft → Type 0
AllFit ds = All (λ d. Fits d.payload) ds

-- A step of the episodes that keeps every time in these years, and emits no other.
abbrev pub TimedStep : Step → Type 0
TimedStep s = All IsTimed s.0.repairs × AllFit s.1

module _ {ℓ κ} {A : Type ℓ} (P : A → Type κ) where
  pub All-update_at :
      (f : A → A) (i : ℕ) (xs : List A)
      → ((x : A) → P x → P (f x))
      → All P xs
      → All P (update_at f i xs)
  All-update_at f i [] g a = a
  All-update_at f zero (x ∷ xs) g a = (g x a.0, a.1)
  All-update_at f (suc i) (x ∷ xs) g a = (a.0, All-update_at f i xs g a.1)

  pub All-get_elem? : (xs : List A) (i : ℕ) (x : A) → get_elem? xs i ≡ some x → All P xs → P x
  All-get_elem? [] i x h a = cc
  All-get_elem? (y ∷ ys) zero x h a = let e : y ≡ x = cc in subst P e a.0
  All-get_elem? (y ∷ ys) (suc i) x h a = All-get_elem? ys i x h a.1

pub touch-IsTimed : (t : ℕ) (r : Repair) → InYears t → IsTimed r → IsTimed (touch t r)
unfolding touch
touch-IsTimed t r h v = elim (Bool-cases (t == 0)) [
  | inl never ↦ rw never v
  | inr there ↦ rw there (v.0, h, v.2)
]

pub either-InYears : (b : Bool) (t u : ℕ) → InYears t → InYears u → InYears (if b then t else u)
either-InYears true t u h k = h
either-InYears false t u h k = k
