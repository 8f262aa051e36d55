-- ===== src/Base/Sort.antt =====
-- `sort_unstable_by`: insertion by a Boolean comparison.
use Prim.Native.Nat.{ℕ, zero, suc}
use mathlib.Core.Path.{◌≡◌, refl, ap, ap₂, subst, subst₂, ◌∙◌}
use mathlib.Core.Logic.{◌⊎◌, inl, inr}
use mathlib.Core.Bool.{Bool, true, false}
use mathlib.Core.List.{List, [], ◌∷◌, Permᴰ}
use mathlib.Core.List.Permᴰ
use native.Mathlib.Omega.{arith}
use naome_memory.Base.Tests.{if◌then◌else◌, Bool-cases}
use naome_memory.Base.Lists.{length, All, All-map, All-drop, Has, take, drop}

module _ {A : Type 0} (le : A → A → Bool) where
  unfoldable pub insert_by : A → List A → List A
  insert_by x [] = x ∷ []
  insert_by x (y ∷ ys) = if le x y then x ∷ y ∷ ys else y ∷ insert_by x ys

  unfoldable pub sort_by : List A → List A
  unfolding insert_by
  sort_by [] = []
  sort_by (x ∷ xs) = insert_by x (sort_by xs)

  -- A comparison that is total and transitive.
  pub record IsPreorder : Type 0 where
    pub le_total : (a b : A) → le a b ≡ false → le b a ≡ true
    pub le_trans : (a b c : A) → le a b ≡ true → le b c ≡ true → le a c ≡ true

  abbrev pub Below : A → List A → Type 0
  Below x = All (λ y. le x y ≡ true)

  abbrev pub IsSorted : List A → Type 0
  IsSorted [] = Unit
  IsSorted (x ∷ xs) = Below x xs × IsSorted xs

All-Permᴰ {κ} : {A : Type 0} (P : A → Type κ) {xs ys : List A} → Permᴰ xs ys → All P xs → All P ys
All-Permᴰ P Permᴰ.nil h = tt
All-Permᴰ P (Permᴰ.cons e p) h = (subst P e h.0, All-Permᴰ P p h.1)
All-Permᴰ P (Permᴰ.swap e f) (h, (k, r)) = (subst P f k, (subst P e h, r))
All-Permᴰ P (Permᴰ.trans p q) h = All-Permᴰ P q (All-Permᴰ P p h)

module _ {A : Type 0} (le : A → A → Bool) where
  pub All-insert_by {κ} :
      (P : A → Type κ) (x : A) (xs : List A) → P x → All P xs → All P (insert_by le x xs)
  unfolding insert_by
  All-insert_by P x [] p h = (p, tt)
  All-insert_by P x (y ∷ ys) p h = elim (Bool-cases (le x y)) [
    | inl e ↦ rw e (p, h)
    | inr e ↦ rw e (h.0, All-insert_by P x ys p h.1)
  ]

  pub All-sort_by {κ} : (P : A → Type κ) (xs : List A) → All P xs → All P (sort_by le xs)
  unfolding sort_by
  All-sort_by P [] h = tt
  All-sort_by P (x ∷ xs) h = All-insert_by P x (sort_by le xs) h.0 (All-sort_by P xs h.1)

  insert_by-Permᴰ : (x : A) (xs : List A) → Permᴰ (insert_by le x xs) (x ∷ xs)
  unfolding insert_by
  insert_by-Permᴰ x [] = Permᴰ.refl (x ∷ [])
  insert_by-Permᴰ x (y ∷ ys) = elim (Bool-cases (le x y)) [
    | inl e ↦ rw e (Permᴰ.refl (x ∷ y ∷ ys))
    | inr e ↦ rw e (Permᴰ.trans (Permᴰ.cons refl (insert_by-Permᴰ x ys)) (Permᴰ.swap refl refl))
  ]

  pub sort_by-Permᴰ : (xs : List A) → Permᴰ (sort_by le xs) xs
  unfolding sort_by
  sort_by-Permᴰ [] = Permᴰ.nil
  sort_by-Permᴰ (x ∷ xs) =
      Permᴰ.trans (insert_by-Permᴰ x (sort_by le xs)) (Permᴰ.cons refl (sort_by-Permᴰ xs))

  module _ (order : IsPreorder le) where
    insert_by-IsSorted : (x : A) (xs : List A) → IsSorted le xs → IsSorted le (insert_by le x xs)
    unfolding insert_by
    insert_by-IsSorted x [] h = (tt, tt)
    insert_by-IsSorted x (y ∷ ys) h = elim (Bool-cases (le x y)) [
      | inl e ↦ rw e (
        (e, All-map (λ z. le y z ≡ true) (λ z. le x z ≡ true) ys (λ z. order.le_trans x y z e) h.0),
        h,
      )
      | inr e ↦ rw e (
        All-insert_by (λ z. le y z ≡ true) x ys (order.le_total x y e) h.0,
        insert_by-IsSorted x ys h.1,
      )
    ]

    pub sort_by-IsSorted : (xs : List A) → IsSorted le (sort_by le xs)
    unfolding sort_by
    sort_by-IsSorted [] = tt
    sort_by-IsSorted (x ∷ xs) = insert_by-IsSorted x (sort_by le xs) (sort_by-IsSorted xs)

    -- What `take` keeps of a sorted list is below all that it leaves.
    pub take-le-drop :
        (k : ℕ) (xs : List A) → IsSorted le xs → All (λ x. Below le x (drop k xs)) (take k xs)
    take-le-drop zero xs h = tt
    take-le-drop (suc k) [] h = tt
    take-le-drop (suc k) (x ∷ xs) h =
        (All-drop (λ y. le x y ≡ true) k xs h.0, take-le-drop k xs h.1)

    -- Two insertions commute, unless the comparison ties them.
    insert_by_comm :
        (x y : A) (xs : List A)
        → (le x y ≡ false) ⊎ (le y x ≡ false)
        → insert_by le x (insert_by le y xs) ≡ insert_by le y (insert_by le x xs)
    unfolding insert_by
    insert_by_comm x y [] ne = ground (arith, order.le_total x y, order.le_total y x)
    insert_by_comm x y (z ∷ zs) ne = ground (
      arith,
      order.le_total x y,
      order.le_total y x,
      order.le_trans x y z,
      order.le_trans y x z,
      order.le_total x z,
      order.le_total y z,
      order.le_trans x z y,
      order.le_trans y z x,
      insert_by_comm x y zs ne,
    )

    -- Every two elements are told apart by the comparison.
    abbrev pub Apart : List A → Type 0
    Apart [] = Unit
    Apart (x ∷ xs) = All (λ y. (le x y ≡ false) ⊎ (le y x ≡ false)) xs × Apart xs

    -- `sort_unstable` of a permutation gives the same list, if the comparison ties no two elements.
    pub sort_by-of_Permᴰ :
        {xs ys : List A} → Permᴰ xs ys → Apart xs → (sort_by le xs ≡ sort_by le ys) × Apart ys
    unfolding sort_by
    sort_by-of_Permᴰ Permᴰ.nil a = (refl, tt)
    sort_by-of_Permᴰ (Permᴰ.cons {a = x} {b = y} {l₁ = l} {l₂ = m} e p) a =
        let (same, apart) = sort_by-of_Permᴰ p a.1 in
        let first = All-Permᴰ (λ z. (le x z ≡ false) ⊎ (le z x ≡ false)) p a.0 in
        (
          ap₂ (insert_by le) e same,
          (subst (λ u. All (λ z. (le u z ≡ false) ⊎ (le z u ≡ false)) m) e first, apart),
        )
    sort_by-of_Permᴰ (Permᴰ.swap {a = x} {b = y} {l = l} e f) ((xy, xl), (yl, apart)) =
        let swapped : Apart (y ∷ x ∷ l) =
          ((elim xy [ inl n ↦ inr n | inr n ↦ inl n ], yl), (xl, apart)) in
        (
          insert_by_comm x y (sort_by le l) xy
              ∙ ap₂ (λ u v. insert_by le u (insert_by le v (sort_by le l))) f e,
          subst₂ (λ u v. Apart (u ∷ v ∷ l)) f e swapped,
        )
    sort_by-of_Permᴰ (Permᴰ.trans p q) a =
        let (same, apart) = sort_by-of_Permᴰ p a in
        let (same', apart') = sort_by-of_Permᴰ q apart in (same ∙ same', apart')

  pub Has-insert_by : (x : A) (xs : List A) (a : A) → Has a (insert_by le x xs) → Has a (x ∷ xs)
  unfolding insert_by
  Has-insert_by x [] a m = m
  Has-insert_by x (y ∷ ys) a m = elim (Bool-cases (le x y)) [
    | inl e ↦ rw e at m
    | inr e ↦ elim (rw e at m) as (λ _. Has a (x ∷ y ∷ ys)) [
      | inl f ↦ inr (inl f)
      | inr n ↦ elim (Has-insert_by x ys a n) [ inl f ↦ inl f | inr k ↦ inr (inr k) ]
    ]
  ]

  -- Sorting keeps the elements.
  pub Has-sort_by : (xs : List A) (a : A) → Has a (sort_by le xs) → Has a xs
  unfolding sort_by
  Has-sort_by [] a m = m
  Has-sort_by (x ∷ xs) a m = elim (Has-insert_by x (sort_by le xs) a m) [
    | inl e ↦ inl e
    | inr n ↦ inr (Has-sort_by xs a n)
  ]

  pub length-insert_by : (x : A) (xs : List A) → length (insert_by le x xs) ≡ suc (length xs)
  unfolding insert_by
  length-insert_by x [] = refl
  length-insert_by x (y ∷ ys) = ground (arith, length-insert_by x ys)

  pub length-sort_by : (xs : List A) → length (sort_by le xs) ≡ length xs
  unfolding sort_by
  length-sort_by [] = refl
  length-sort_by (x ∷ xs) = length-insert_by x (sort_by le xs) ∙ ap suc (length-sort_by xs)
