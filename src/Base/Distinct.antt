-- ===== src/Base/Distinct.antt =====
-- Lists without repetition, by membership with the place.
use mathlib.Core.Path.{◌≡◌, refl, sym, ap, subst}
use mathlib.Core.Logic.{◌↔◌, ◌⊎◌, inl, inr}
use mathlib.Core.Bool.{true, false}
use mathlib.Core.List.{List, [], ◌∷◌, ◌++◌, map}
use native.Mathlib.Omega.{arith}
use backup_tool.Base.Tests.{Bool-cases}
use backup_tool.Base.Lists.{In}
use backup_tool.Base.Equality.{Eq, ◌==◌, contains}

module _ {A : Type 0} where
  abbrev pub Distinct : List A → Type 0
  Distinct [] = Unit
  Distinct (x ∷ xs) = (¬ In x xs) × Distinct xs

  -- No element is in both.
  abbrev pub Apart : List A → List A → Type 0
  Apart xs ys = (a : A) → In a xs → ¬ In a ys

  pub In-append : (a : A) (xs ys : List A) → In a (xs ++ ys) ↔ (In a xs ⊎ In a ys)
  In-append a [] ys = (λ i. inr i, λ i. elim i [ inl f ↦ absurd f | inr j ↦ j ])
  In-append a (x ∷ xs) ys =
      let rest = In-append a xs ys in
      (
        λ i. elim i [
          | inl e ↦ inl (inl e)
          | inr j ↦ elim (rest.0 j) [ inl k ↦ inl (inr k) | inr k ↦ inr k ]
        ],
        λ i. elim i [
          | inl (inl e) ↦ inl e
          | inl (inr j) ↦ inr (rest.1 (inl j))
          | inr j ↦ inr (rest.1 (inr j))
        ],
      )

  pub Distinct-append :
      (xs ys : List A) → Distinct (xs ++ ys) ↔ (Distinct xs × Distinct ys × Apart xs ys)
  Distinct-append [] ys = (λ d. (tt, d, λ a i. absurd i), λ d. d.1)
  Distinct-append (x ∷ xs) ys =
      let rest = Distinct-append xs ys in
      let here = In-append x xs ys in
      (
        λ d.
            let (left, right, apart) = rest.0 d.1 in
            (
              (λ i. d.0 (here.1 (inl i)), left),
              right,
              λ a i j. elim i [
                | inl e ↦ d.0 (here.1 (inr (subst (λ b. In b ys) e j)))
                | inr k ↦ apart a k j
              ],
            ),
        λ d. (
          λ i. elim (here.0 i) [ inl j ↦ d.0.0 j | inr j ↦ d.2 x (inl refl) j ],
          rest.1 (d.0.1, d.1, λ a i. d.2 a (inr i)),
        ),
      )

  module _ ⦃e : Eq A⦄ where
    pub contains-In : (xs : List A) (a : A) → (contains xs a ≡ true) ↔ In a xs
    contains-In [] a = (λ h. absurd (cc h), λ i. absurd i)
    contains-In (x ∷ xs) a = elim (Bool-cases (a == x)) [
      | inl same ↦ (λ h. inl ((e.beq_iff a x).0 same), λ i. rw same)
      | inr other ↦
          let rest = contains-In xs a in
          (
            λ h. inr (rest.0 (ground (arith, h, other))),
            λ i. elim i [
              | inl p ↦ absurd (ground (arith, other, (e.beq_iff a x).1 p))
              | inr j ↦ ground (arith, rest.1 j)
            ],
          )
    ]

    pub contains-false : (xs : List A) (a : A) → (contains xs a ≡ false) ↔ (¬ In a xs)
    contains-false xs a = elim (Bool-cases (contains xs a)) [
      | inl found ↦ (
        λ h. absurd (ground (arith, h, found)),
        λ absent. absurd (absent ((contains-In xs a).0 found)),
      )
      | inr missing ↦
          (λ h i. absurd (ground (arith, missing, (contains-In xs a).1 i)), λ _. missing)
    ]

module _ {A B : Type 0} (f : A → B) where
  pub In-map : (b : B) (xs : List A) → In b (map f xs) → (a : A) × In a xs × (b ≡ f a)
  In-map b [] i = elim i [ ]
  In-map b (x ∷ xs) (inl e) = (x, inl refl, e)
  In-map b (x ∷ xs) (inr i) = let (a, j, e) = In-map b xs i in (a, inr j, e)

  pub map-In : (a : A) (xs : List A) → In a xs → In (f a) (map f xs)
  map-In a [] i = elim i [ ]
  map-In a (x ∷ xs) (inl e) = inl (ap f e)
  map-In a (x ∷ xs) (inr i) = inr (map-In a xs i)

  -- An injective function keeps elements apart.
  pub Distinct-map :
      ((a b : A) → f a ≡ f b → a ≡ b) → (xs : List A) → Distinct xs → Distinct (map f xs)
  Distinct-map inj [] d = tt
  Distinct-map inj (x ∷ xs) d = (
    λ i. let (a, j, e) = In-map (f x) xs i in d.0 (subst (λ b. In b xs) (sym (inj x a e)) j),
    Distinct-map inj xs d.1,
  )
