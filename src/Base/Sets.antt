-- ===== src/Base/Sets.antt =====
-- A `BTreeSet` as its elements in order.
use Prim.Native.Nat.{ℕ, suc, ◌+◌, ◌≤◌}
use Prim.Native.Nat.Ordering.{lt, eq, gt}
use mathlib.Core.Path.{◌≡◌, refl, ap, ◌∙◌}
use mathlib.Core.Logic.{inl, inr}
use mathlib.Core.Bool.{Bool, true, false, not, ◌||◌}
use mathlib.Core.List.{List, [], ◌∷◌}
use native.Mathlib.Omega.{arith}
use naome_memory.Base.Tests.{Bool-cases}
use naome_memory.Base.Lists.{length, All, All-map, filterb}
use naome_memory.Base.Order.{Ord, is_eq, Ordering-cases}

module _ {A : Type 0} ⦃o : Ord A⦄ where
  abbrev pub set_contains : A → List A → Bool
  set_contains x [] = false
  set_contains x (y ∷ ys) = is_eq (o.cmp x y) || set_contains x ys

  unfoldable pub set_insert : A → List A → List A
  set_insert x [] = x ∷ []
  set_insert x (y ∷ ys) = elim (o.cmp x y) [
    | lt ↦ x ∷ y ∷ ys
    | eq ↦ y ∷ ys
    | gt ↦ y ∷ set_insert x ys
  ]

  -- `iter().collect::<BTreeSet<_>>()`
  unfoldable pub set_of : List A → List A
  unfolding set_insert
  set_of [] = []
  set_of (x ∷ xs) = set_insert x (set_of xs)

  -- `left.union(right).count()` and `left.intersection(right).count()`
  unfoldable pub union_count : List A → List A → ℕ
  union_count left right = length left + length (filterb (λ y. not (set_contains y left)) right)

  unfoldable pub intersection_count : List A → List A → ℕ
  intersection_count left right = length (filterb (λ x. set_contains x right) left)

  abbrev pub IsSetOf : List A → Type 0
  IsSetOf [] = Unit
  IsSetOf (x ∷ xs) = All (λ y. o.cmp x y ≡ lt) xs × IsSetOf xs

  -- No two elements are equal.
  abbrev pub Distinct : List A → Type 0
  Distinct [] = Unit
  Distinct (x ∷ xs) = (set_contains x xs ≡ false) × Distinct xs

  set_insert-known : (x : A) (xs : List A) → length (set_insert x xs) ≤ suc (length xs)
  unfolding set_insert
  set_insert-known x [] = omega arith
  set_insert-known x (y ∷ ys) = ground (arith, set_insert-known x ys)

  not_contains_of_below :
      (x : A) (xs : List A) → All (λ z. o.cmp x z ≡ lt) xs → set_contains x xs ≡ false
  not_contains_of_below x [] h = refl
  not_contains_of_below x (y ∷ ys) h = rw h.0 (not_contains_of_below x ys h.1)

  pub below_trans :
      (x y : A) (ys : List A)
      → o.cmp x y ≡ lt
      → All (λ z. o.cmp y z ≡ lt) ys
      → All (λ z. o.cmp x z ≡ lt) ys
  below_trans x y ys e =
      All-map (λ z. o.cmp y z ≡ lt) (λ z. o.cmp x z ≡ lt) ys (λ z. o.cmp_trans x y z e)

  -- In a strictly sorted list a found element is not inserted again.
  set_insert-present :
      (x : A) (xs : List A)
      → IsSetOf xs
      → set_contains x xs ≡ true
      → length (set_insert x xs) ≡ length xs
  unfolding set_insert
  set_insert-present x [] s h = cc
  set_insert-present x (y ∷ ys) s h =
      let above = λ (e : o.cmp x y ≡ lt). not_contains_of_below x ys (below_trans x y ys e s.0) in
      elim (Ordering-cases (o.cmp x y)) [
        | inl l ↦ let none_above = above l in cc
        | inr (inl e) ↦ rw (e, set_insert)
        | inr (inr g) ↦ rw (g, set_insert) (ap suc (set_insert-present x ys s.1 (rw g at h)))
      ]

  set_insert-new :
      (x : A) (xs : List A) → set_contains x xs ≡ false → length (set_insert x xs) ≡ suc (length xs)
  unfolding set_insert
  set_insert-new x [] h = refl
  set_insert-new x (y ∷ ys) h = ground (arith, set_insert-new x ys)

  set_insert-All : (P : A → Type 0) (x : A) (xs : List A) → P x → All P xs → All P (set_insert x xs)
  unfolding set_insert
  set_insert-All P x [] p h = (p, tt)
  set_insert-All P x (y ∷ ys) p h = elim (Ordering-cases (o.cmp x y)) [
    | inl l ↦ rw (l, set_insert) (p, h)
    | inr (inl e) ↦ rw (e, set_insert) h
    | inr (inr g) ↦ rw (g, set_insert) (h.0, set_insert-All P x ys p h.1)
  ]

  set_insert-IsSetOf : (x : A) (xs : List A) → IsSetOf xs → IsSetOf (set_insert x xs)
  unfolding set_insert
  set_insert-IsSetOf x [] s = (tt, tt)
  set_insert-IsSetOf x (y ∷ ys) s = elim (Ordering-cases (o.cmp x y)) [
    | inl l ↦ rw (l, set_insert) ((l, below_trans x y ys l s.0), s)
    | inr (inl e) ↦ rw (e, set_insert) s
    | inr (inr g) ↦
        rw (g, set_insert)
          (
            set_insert-All (λ z. o.cmp y z ≡ lt) x ys (rw (o.cmp_flip x y, g)) s.0,
            set_insert-IsSetOf x ys s.1,
          )
  ]

  pub set_of-IsSetOf : (xs : List A) → IsSetOf (set_of xs)
  unfolding set_of
  set_of-IsSetOf [] = tt
  set_of-IsSetOf (x ∷ xs) = set_insert-IsSetOf x (set_of xs) (set_of-IsSetOf xs)

  insert_below : (x : A) (xs : List A) → All (λ z. o.cmp x z ≡ lt) xs → set_insert x xs ≡ x ∷ xs
  unfolding set_insert
  insert_below x [] h = refl
  insert_below x (y ∷ ys) h = rw (h.0, set_insert) refl

  pub set_of_self : (xs : List A) → IsSetOf xs → set_of xs ≡ xs
  unfolding set_of
  set_of_self [] s = refl
  set_of_self (x ∷ xs) s = ap (set_insert x) (set_of_self xs s.1) ∙ insert_below x xs s.0

  pub set_contains-insert :
      (z x : A) (xs : List A)
      → set_contains z (set_insert x xs) ≡ (is_eq (o.cmp z x) || set_contains z xs)
  unfolding set_insert
  set_contains-insert z x [] = refl
  set_contains-insert z x (y ∷ ys) = ground (arith, o.cmp_eq x y, set_contains-insert z x ys)

  -- The set holds just the elements of the list.
  pub set_contains-set_of : (z : A) (xs : List A) → set_contains z (set_of xs) ≡ set_contains z xs
  unfolding set_of
  set_contains-set_of z [] = refl
  set_contains-set_of z (x ∷ xs) =
      set_contains-insert z x (set_of xs)
      ∙ ap (λ b. is_eq (o.cmp z x) || b) (set_contains-set_of z xs)

  pub length-set_of-le : (xs : List A) → length (set_of xs) ≤ length xs
  unfolding set_of
  length-set_of-le [] = omega arith
  length-set_of-le (x ∷ xs) = omega (arith, set_insert-known x (set_of xs), length-set_of-le xs)

  -- As many elements in the set as in the list: no element stands twice.
  pub Distinct-of_length : (xs : List A) → length (set_of xs) ≡ length xs → Distinct xs
  unfolding set_of
  Distinct-of_length [] h = tt
  Distinct-of_length (x ∷ xs) h =
      let inserted = set_insert-known x (set_of xs) in
      let below = length-set_of-le xs in
      elim (Bool-cases (set_contains x (set_of xs))) [
        | inl old ↦
            let kept = set_insert-present x (set_of xs) (set_of-IsSetOf xs) old in
            absurd (omega arith)
        | inr new ↦ (rw (set_contains-set_of x xs) at new, Distinct-of_length xs (omega arith))
      ]

  pub length-of_Distinct : (xs : List A) → Distinct xs → length (set_of xs) ≡ length xs
  unfolding set_of
  length-of_Distinct [] h = refl
  length-of_Distinct (x ∷ xs) h =
      set_insert-new x (set_of xs) (set_contains-set_of x xs ∙ h.0)
      ∙ ap suc (length-of_Distinct xs h.1)
