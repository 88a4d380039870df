-- ===== src/Base/Sorting.antt =====
-- sort.SliceStable, as an insertion sort, and sums over lists.
use Prim.Native.Nat.{ℕ, ◌+◌}
use mathlib.Core.Path.{◌≡◌, refl}
use mathlib.Core.Logic.{inl, inr}
use mathlib.Core.Bool.{Bool}
use mathlib.Core.List.{List, [], ◌∷◌, ◌++◌}
use native.Mathlib.Omega.{arith}
use flow_indicator.Base.Tests.{if◌then◌else◌, Bool-cases}
use flow_indicator.Base.Lists.{All}

module _ {ℓ} {A : Type ℓ} where
  -- An element goes before those that are not less than it.
  abbrev pub insert_by : (A → A → Bool) → A → List A → List A
  insert_by less x [] = x ∷ []
  insert_by less x (y ∷ ys) =
      let later = insert_by less x ys in if less y x then y ∷ later else x ∷ y ∷ ys

  unfoldable pub sort_stable : (A → A → Bool) → List A → List A
  sort_stable less [] = []
  sort_stable less (x ∷ xs) = insert_by less x (sort_stable less xs)

  abbrev pub total : (A → ℕ) → List A → ℕ
  total f [] = 0
  total f (x ∷ xs) = f x + total f xs

  total-insert_by :
      (f : A → ℕ) (less : A → A → Bool) (x : A) (ys : List A)
      → total f (insert_by less x ys) ≡ f x + total f ys
  total-insert_by f less x [] = refl
  total-insert_by f less x (y ∷ ys) = ground (arith, total-insert_by f less x ys)

  -- A sort keeps every sum: it moves elements, and drops and doubles none.
  pub total-sort_stable :
      (f : A → ℕ) (less : A → A → Bool) (xs : List A) → total f (sort_stable less xs) ≡ total f xs
  unfolding sort_stable
  total-sort_stable f less [] = refl
  total-sort_stable f less (x ∷ xs) =
      omega (arith, total-insert_by f less x (sort_stable less xs), total-sort_stable f less xs)

  pub total-append : (f : A → ℕ) (xs ys : List A) → total f (xs ++ ys) ≡ total f xs + total f ys
  total-append f [] ys = omega arith
  total-append f (x ∷ xs) ys = omega (arith, total-append f xs ys)

  All-insert_by {κ} :
      (P : A → Type κ) (less : A → A → Bool) (x : A) (ys : List A)
      → P x
      → All P ys
      → All P (insert_by less x ys)
  All-insert_by P less x [] p ps = (p, tt)
  All-insert_by P less x (y ∷ ys) p ps = elim (Bool-cases (less y x)) [
    | inl below ↦ rw (All, below) (ps.0, All-insert_by P less x ys p ps.1)
    | inr above ↦ rw (All, above) (p, ps)
  ]

  pub All-sort_stable {κ} :
      (P : A → Type κ) (less : A → A → Bool) (xs : List A) → All P xs → All P (sort_stable less xs)
  unfolding sort_stable
  All-sort_stable P less [] ps = ps
  All-sort_stable P less (x ∷ xs) ps =
      All-insert_by P less x (sort_stable less xs) ps.0 (All-sort_stable P less xs ps.1)
