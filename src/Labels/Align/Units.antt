-- ===== src/Labels/Align/Units.antt =====
-- Units with different indexes, some of them used.
use flow_indicator.Base.{
  ℕ, ◌+◌, ◌≡◌, refl, sym, ap, ◌∙◌, ◌⊎◌, inl, inr, true, false, List, [], ◌∷◌, ◌==◌, if◌then◌else◌,
  member, total, Bool-cases, arith,
}

-- Units with different indexes, and the units that are not used.
module _ {A : Type 0} where
  abbrev pub Has : ℕ × A → List (ℕ × A) → Type 0
  Has e [] = ⊥
  Has e (x ∷ xs) = (x ≡ e) ⊎ Has e xs

  abbrev pub indexes : List (ℕ × A) → List ℕ
  indexes [] = []
  indexes (x ∷ xs) = x.0 ∷ indexes xs

  abbrev pub Different : List (ℕ × A) → Type 0
  Different [] = Unit
  Different (x ∷ xs) = (member x.0 (indexes xs) ≡ false) × Different xs

  abbrev pub unused : (A → ℕ) → List ℕ → List (ℕ × A) → ℕ
  unused f used [] = 0
  unused f used (x ∷ xs) =
      let later = unused f used xs in if member x.0 used then later else f x.1 + later

  Has-indexes : (e : ℕ × A) (xs : List (ℕ × A)) → Has e xs → member e.0 (indexes xs) ≡ true
  Has-indexes e [] h = elim h [ ]
  Has-indexes e (x ∷ xs) (inl q) = ground arith
  Has-indexes e (x ∷ xs) (inr h) = ground (arith, Has-indexes e xs h)

  -- A unit that is not there changes nothing when it is used.
  unused_absent :
      (f : A → ℕ) (i : ℕ) (used : List ℕ) (xs : List (ℕ × A))
      → member i (indexes xs) ≡ false
      → unused f (i ∷ used) xs ≡ unused f used xs
  unused_absent f i used [] h = refl
  unused_absent f i used (x ∷ xs) h =
      let ih = unused_absent f i used xs (ground arith) in ground arith

  -- A unit that is there and not used moves its weight out when it is used.
  pub unused_present :
      (f : A → ℕ) (e : ℕ × A) (used : List ℕ) (xs : List (ℕ × A))
      → Different xs
      → Has e xs
      → member e.0 used ≡ false
      → unused f used xs ≡ f e.1 + unused f (e.0 ∷ used) xs
  unused_present f e used [] d h free = elim h [ ]
  unused_present f e used (x ∷ xs) d (inl q) free =
      let absent : member e.0 (indexes xs) ≡ false = rw (← q) d.0 in
      let same_index : x.0 ≡ e.0 = ap (λ z. z.0) q in
      let same_weight : f x.1 ≡ f e.1 = ap (λ z. f z.1) q in
      let ih = unused_absent f e.0 used xs absent in
      let free' : member x.0 used ≡ false = ap (λ k. member k used) same_index ∙ free in
      ground arith
  unused_present f e used (x ∷ xs) d (inr h) free =
      let ih = unused_present f e used xs d.1 h free in
      let there = Has-indexes e xs h in
      elim (Bool-cases (e.0 == x.0)) [
        | inl met ↦
            let met' : e.0 ≡ x.0 = ground arith in
            let twice : member x.0 (indexes xs) ≡ true =
              ap (λ k. member k (indexes xs)) (sym met') ∙ there in
            absurd (let no : true ≡ false = sym twice ∙ d.0 in cc)
        | inr apart ↦ ground arith
      ]

  pub unused_nothing : (f : A → ℕ) (xs : List (ℕ × A)) → unused f [] xs ≡ total (λ x. f x.1) xs
  unused_nothing f [] = refl
  unused_nothing f (x ∷ xs) = ap (λ n. f x.1 + n) (unused_nothing f xs)
