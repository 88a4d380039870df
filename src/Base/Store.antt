-- ===== src/Base/Store.antt =====
-- Stores of shared objects, addressed by position, and maps keyed by text.
use Prim.Native.Nat.{ℕ, zero, suc, ◌<◌}
use Prim.Native.String.{String}
use mathlib.Core.Path.{◌≡◌, refl, ap}
use mathlib.Core.Logic.{◌≢◌, ◌⊎◌, inl, inr}
use mathlib.Core.Bool.{Bool, true, false}
use mathlib.Core.List.{List, [], ◌∷◌, ◌++◌}
use mathlib.Core.Option.{Option, none, some}
use native.Mathlib.Omega.{arith}
use flow_indicator.Base.Tests.{◌==◌, same, same_iff, if◌then◌else◌}
use flow_indicator.Base.Lists.{length, get_elem?}

module _ {ℓ} {A : Type ℓ} where
  -- A write through a pointer: the object at a position is changed in place.
  abbrev pub update_at : (A → A) → ℕ → List A → List A
  update_at f i [] = []
  update_at f zero (x ∷ xs) = f x ∷ xs
  update_at f (suc i) (x ∷ xs) = x ∷ update_at f i xs

  abbrev pub apply_to : (A → A) → Option A → Option A
  apply_to f none = none
  apply_to f (some x) = some (f x)

module _ {ℓ} {A : Type ℓ} where
  pub length-update_at : (f : A → A) (i : ℕ) (xs : List A) → length (update_at f i xs) ≡ length xs
  length-update_at f i [] = refl
  length-update_at f zero (x ∷ xs) = refl
  length-update_at f (suc i) (x ∷ xs) = ap suc (length-update_at f i xs)

  pub get_elem?-update_at :
      (f : A → A) (i j : ℕ) (xs : List A)
      → get_elem? (update_at f i xs) j
        ≡ (if i == j then apply_to f (get_elem? xs j) else get_elem? xs j)
  get_elem?-update_at f i j [] = ground arith
  get_elem?-update_at f zero zero (x ∷ xs) = refl
  get_elem?-update_at f zero (suc j) (x ∷ xs) = ground arith
  get_elem?-update_at f (suc i) zero (x ∷ xs) = ground arith
  get_elem?-update_at f (suc i) (suc j) (x ∷ xs) = ground (arith, get_elem?-update_at f i j xs)

  pub get_elem?-append_last :
      (xs : List A) (x : A) (j : ℕ)
      → get_elem? (xs ++ x ∷ []) j ≡ (if j == length xs then some x else get_elem? xs j)
  get_elem?-append_last [] x zero = refl
  get_elem?-append_last [] x (suc j) = ground arith
  get_elem?-append_last (y ∷ ys) x zero = ground arith
  get_elem?-append_last (y ∷ ys) x (suc j) = ground (arith, get_elem?-append_last ys x j)

  pub get_elem?-lt : (xs : List A) (i : ℕ) {x : A} → get_elem? xs i ≡ some x → i < length xs
  get_elem?-lt [] i h = ground arith
  get_elem?-lt (y ∷ ys) zero h = omega arith
  get_elem?-lt (y ∷ ys) (suc i) h = omega (arith, get_elem?-lt ys i h)

  pub lt-get_elem? : (xs : List A) (i : ℕ) → i < length xs → (x : A) × (get_elem? xs i ≡ some x)
  lt-get_elem? [] i h = elim h [ ]
  lt-get_elem? (y ∷ ys) zero h = (y, refl)
  lt-get_elem? (y ∷ ys) (suc i) h = lt-get_elem? ys i (omega arith)

-- A Go map with text keys. A missing key is `none`; a key that is there keeps its place.
module _ {ℓ} {V : Type ℓ} where
  abbrev pub lookup : String → List (String × V) → Option V
  lookup key [] = none
  lookup key (entry ∷ entries) =
      let later = lookup key entries in if same entry.0 key then some entry.1 else later

  abbrev pub insert : String → V → List (String × V) → List (String × V)
  insert key value [] = (key, value) ∷ []
  insert key value (entry ∷ entries) =
      let later = insert key value entries in
      if same entry.0 key then (key, value) ∷ entries else entry ∷ later

-- A write reaches the key that it names and no other.
module _ {ℓ} {V : Type ℓ} where
  pub lookup-insert :
      (written asked : String) (value : V) (entries : List (String × V))
      → lookup asked (insert written value entries)
        ≡ (if same written asked then some value else lookup asked entries)
  lookup-insert written asked value [] = refl
  lookup-insert written asked value (entry ∷ entries) =
      let ih = lookup-insert written asked value entries in
      ground (arith, ih, same_iff entry.0 written, same_iff entry.0 asked, same_iff written asked)

abbrev pub contains : String → List String → Bool
contains k [] = false
contains k (x ∷ xs) = if same x k then true else contains k xs

module _ {ℓ} {A : Type ℓ} where
  -- Where an object read after a write comes from.
  pub update_at_origin :
      (f : A → A) (i j : ℕ) (xs : List A) (y : A)
      → get_elem? (update_at f i xs) j ≡ some y
      → (x : A) × (get_elem? xs j ≡ some x) × (((i ≡ j) × (y ≡ f x)) ⊎ ((i ≢ j) × (y ≡ x)))
  update_at_origin f i j [] y h = cc
  update_at_origin f zero zero (x ∷ xs) y h = (x, refl, inl (refl, cc))
  update_at_origin f zero (suc j) (x ∷ xs) y h = (y, h, inr (ground arith, refl))
  update_at_origin f (suc i) zero (x ∷ xs) y h = (x, refl, inr (ground arith, cc))
  update_at_origin f (suc i) (suc j) (x ∷ xs) y h =
      let (x', e, d) = update_at_origin f i j xs y h in (x', e, ground arith)

  pub update_at_hit :
      (f : A → A) (i : ℕ) (xs : List A) (x : A)
      → get_elem? xs i ≡ some x
      → get_elem? (update_at f i xs) i ≡ some (f x)
  update_at_hit f i xs x h = ground (arith, get_elem?-update_at f i i xs)

  pub append_last_origin :
      (xs : List A) (x : A) (j : ℕ) (y : A)
      → get_elem? (xs ++ x ∷ []) j ≡ some y
      → ((j ≡ length xs) × (y ≡ x)) ⊎ (get_elem? xs j ≡ some y)
  append_last_origin xs x j y h = ground (arith, get_elem?-append_last xs x j)

  pub append_last_keep :
      (xs : List A) (x : A) (j : ℕ) (y : A)
      → get_elem? xs j ≡ some y
      → get_elem? (xs ++ x ∷ []) j ≡ some y
  append_last_keep xs x j y h =
      ground (arith, get_elem?-append_last xs x j, get_elem?-lt xs j {x = y} h)
