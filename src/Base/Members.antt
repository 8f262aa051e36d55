-- ===== src/Base/Members.antt =====
-- Membership in maps, filters and prefixes of lists.
use Prim.Native.Nat.{ℕ, zero, suc, ◌≤◌}
use native.Mathlib.Omega.{arith}
use naome_memory.Base.Lists.{length}
use mathlib.Core.Path.{◌≡◌, refl, sym, ap, subst}
use mathlib.Core.Logic.{inl, inr}
use mathlib.Core.Bool.{Bool, true}
use mathlib.Core.List.{List, [], ◌∷◌, map}
use naome_memory.Base.Lists.{Has, filterb, take}
use naome_memory.Base.Tests.{Bool-cases}

pub Has-filterb :
    {A : Type 0} (p : A → Bool) (xs : List A) (a : A)
    → Has a (filterb p xs)
    → Has a xs × (p a ≡ true)
Has-filterb p [] a m = absurd m
Has-filterb p (x ∷ xs) a m = elim (Bool-cases (p x)) [
  | inl e ↦ elim (rw e at m) as (λ _. Has a (x ∷ xs) × (p a ≡ true)) [
    | inl f ↦ (inl f, subst (λ y. p y ≡ true) f e)
    | inr n ↦ let (h, q) = Has-filterb p xs a n in (inr h, q)
  ]
  | inr e ↦ let (h, q) = Has-filterb p xs a (rw e at m) in (inr h, q)
]

pub Has-of_filterb :
    {A : Type 0} (p : A → Bool) (xs : List A) (a : A) → Has a xs → p a ≡ true → Has a (filterb p xs)
Has-of_filterb p [] a m q = absurd m
Has-of_filterb p (x ∷ xs) a (inl f) q = rw (subst (λ y. p y ≡ true) (sym f) q) (inl f)
Has-of_filterb p (x ∷ xs) a (inr n) q = elim (Bool-cases (p x)) [
  | inl e ↦ rw e (inr (Has-of_filterb p xs a n q))
  | inr e ↦ rw e (Has-of_filterb p xs a n q)
]

pub Has-map :
    {A B : Type 0} (f : A → B) (xs : List A) (b : B)
    → Has b (map f xs)
    → (a : A) × Has a xs × (f a ≡ b)
Has-map f [] b m = absurd m
Has-map f (x ∷ xs) b (inl e) = (x, inl refl, e)
Has-map f (x ∷ xs) b (inr n) = let (a, h, e) = Has-map f xs b n in (a, inr h, e)

pub Has-of_map : {A B : Type 0} (f : A → B) (xs : List A) (a : A) → Has a xs → Has (f a) (map f xs)
Has-of_map f [] a m = absurd m
Has-of_map f (x ∷ xs) a (inl e) = inl (ap f e)
Has-of_map f (x ∷ xs) a (inr n) = inr (Has-of_map f xs a n)

pub Has-take : {A : Type 0} (k : ℕ) (xs : List A) (a : A) → Has a (take k xs) → Has a xs
Has-take zero xs a m = absurd m
Has-take (suc k) [] a m = absurd m
Has-take (suc k) (x ∷ xs) a (inl e) = inl e
Has-take (suc k) (x ∷ xs) a (inr n) = inr (Has-take k xs a n)

pub length-filterb : {A : Type 0} (p : A → Bool) (xs : List A) → length (filterb p xs) ≤ length xs
length-filterb p [] = omega arith
length-filterb p (x ∷ xs) = ground (arith, length-filterb p xs)
