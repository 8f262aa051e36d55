-- ===== src/Base/Lists.antt =====
-- Lists measured and indexed by native numbers, under the library's names, and Boolean searches.
use Prim.Native.Nat.{ℕ, zero, suc, ◌+◌, min}
use mathlib.Core.Path.{◌≡◌, refl, ap, subst}
use mathlib.Core.Logic.{◌⊎◌, inl, inr}
use mathlib.Core.List.{List, [], ◌∷◌, ◌++◌, map}
use mathlib.Core.Option.{Option, none, some}
use mathlib.Core.Bool.{Bool, true, false, ◌&&◌, ◌||◌}
use native.Mathlib.Omega.{arith}
use naome_memory.Base.Tests.{if◌then◌else◌, ◌==◌, ||_false, &&_true}

module _ {ℓ} {A : Type ℓ} where
  abbrev pub length : List A → ℕ
  length [] = 0
  length (x ∷ xs) = suc (length xs)

  abbrev pub get_elem? : List A → ℕ → Option A
  get_elem? [] i = none
  get_elem? (x ∷ xs) zero = some x
  get_elem? (x ∷ xs) (suc i) = get_elem? xs i

  abbrev pub get_or : List A → ℕ → A → A
  get_or [] i d = d
  get_or (x ∷ xs) zero d = x
  get_or (x ∷ xs) (suc i) d = get_or xs i d

  -- A write out of bounds changes nothing.
  abbrev pub set : List A → ℕ → A → List A
  set [] i v = []
  set (x ∷ xs) zero v = v ∷ xs
  set (x ∷ xs) (suc i) v = x ∷ set xs i v

  abbrev pub take : ℕ → List A → List A
  take zero xs = []
  take (suc n) [] = []
  take (suc n) (x ∷ xs) = x ∷ take n xs

  abbrev pub drop : ℕ → List A → List A
  drop zero xs = xs
  drop (suc n) [] = []
  drop (suc n) (x ∷ xs) = drop n xs

  -- `iter().filter(p)`, `iter().any(p)` and `iter().all(p)`
  abbrev pub filterb : (A → Bool) → List A → List A
  filterb p [] = []
  filterb p (x ∷ xs) = if p x then x ∷ filterb p xs else filterb p xs

  abbrev pub anyb : (A → Bool) → List A → Bool
  anyb p [] = false
  anyb p (x ∷ xs) = p x || anyb p xs

  abbrev pub allb : (A → Bool) → List A → Bool
  allb p [] = true
  allb p (x ∷ xs) = p x && allb p xs

  abbrev pub is_nil : List A → Bool
  is_nil [] = true
  is_nil (x ∷ xs) = false

  abbrev pub is_some : Option A → Bool
  is_some none = false
  is_some (some a) = true

  -- `option.into_iter().collect()`
  abbrev pub option_list : Option A → List A
  option_list none = []
  option_list (some a) = a ∷ []

  -- A predicate at every element.
  abbrev pub All {κ} : (A → Type κ) → List A → Type κ
  All P [] = Unit
  All P (x ∷ xs) = P x × All P xs

  pub length-append : (xs ys : List A) → length (xs ++ ys) ≡ length xs + length ys
  length-append [] ys = omega arith
  length-append (x ∷ xs) ys = omega (arith, length-append xs ys)

  pub length-take : (n : ℕ) (xs : List A) → length (take n xs) ≡ min n (length xs)
  length-take zero xs = omega arith
  length-take (suc n) [] = omega arith
  length-take (suc n) (x ∷ xs) = omega (arith, length-take n xs)

  pub All-append {κ} : (P : A → Type κ) (xs ys : List A) → All P xs → All P ys → All P (xs ++ ys)
  All-append P [] ys h k = k
  All-append P (x ∷ xs) ys h k = (h.0, All-append P xs ys h.1 k)

  pub All-map {κ μ} :
      (P : A → Type κ) (Q : A → Type μ) (xs : List A) → ((a : A) → P a → Q a) → All P xs → All Q xs
  All-map P Q [] f h = tt
  All-map P Q (x ∷ xs) f h = (f x h.0, All-map P Q xs f h.1)

  pub All-drop {κ} : (P : A → Type κ) (k : ℕ) (xs : List A) → All P xs → All P (drop k xs)
  All-drop P zero xs h = h
  All-drop P (suc k) [] h = tt
  All-drop P (suc k) (x ∷ xs) h = All-drop P k xs h.1

  pub All-take {κ} : (P : A → Type κ) (k : ℕ) (xs : List A) → All P xs → All P (take k xs)
  All-take P zero xs h = tt
  All-take P (suc k) [] h = tt
  All-take P (suc k) (x ∷ xs) h = (h.0, All-take P k xs h.1)

-- Membership by recursion.
module _ {A : Type 0} where
  abbrev pub Has : A → List A → Type 0
  Has a [] = ⊥
  Has a (x ∷ xs) = (x ≡ a) ⊎ Has a xs

  pub All-Has {κ} : (P : A → Type κ) (xs : List A) (a : A) → All P xs → Has a xs → P a
  All-Has P [] a h m = absurd m
  All-Has P (x ∷ xs) a h (inl e) = subst P e h.0
  All-Has P (x ∷ xs) a h (inr m) = All-Has P xs a h.1 m

  pub All-of_Has {κ} : (P : A → Type κ) (xs : List A) → ((a : A) → Has a xs → P a) → All P xs
  All-of_Has P [] h = tt
  All-of_Has P (x ∷ xs) h = (h x (inl refl), All-of_Has P xs (λ a m. h a (inr m)))

  pub Has-append : (xs ys : List A) (a : A) → Has a (xs ++ ys) → Has a xs ⊎ Has a ys
  Has-append [] ys a m = inr m
  Has-append (x ∷ xs) ys a (inl e) = inl (inl e)
  Has-append (x ∷ xs) ys a (inr m) = elim (Has-append xs ys a m) [
    | inl l ↦ inl (inr l)
    | inr r ↦ inr r
  ]

  pub Has-append_left : (xs ys : List A) (a : A) → Has a xs → Has a (xs ++ ys)
  Has-append_left [] ys a m = absurd m
  Has-append_left (x ∷ xs) ys a (inl e) = inl e
  Has-append_left (x ∷ xs) ys a (inr m) = inr (Has-append_left xs ys a m)

  pub Has-append_right : (xs ys : List A) (a : A) → Has a ys → Has a (xs ++ ys)
  Has-append_right [] ys a m = m
  Has-append_right (x ∷ xs) ys a m = inr (Has-append_right xs ys a m)

module _ {ℓ κ} {A : Type ℓ} {B : Type κ} where
  -- `iter().filter_map(f)`
  abbrev pub filter_map : (A → Option B) → List A → List B
  filter_map f [] = []
  filter_map f (x ∷ xs) = elim (f x) [ none ↦ filter_map f xs | some b ↦ b ∷ filter_map f xs ]

  pub length-map : (f : A → B) (xs : List A) → length (map f xs) ≡ length xs
  length-map f [] = refl
  length-map f (x ∷ xs) = ap suc (length-map f xs)

-- Equality of lists of numbers.
unfoldable pub nats_eq : List ℕ → List ℕ → Bool
nats_eq [] [] = true
nats_eq [] (y ∷ ys) = false
nats_eq (x ∷ xs) [] = false
nats_eq (x ∷ xs) (y ∷ ys) = x == y && nats_eq xs ys

pub nats_eq→eq : (xs ys : List ℕ) → nats_eq xs ys ≡ true → xs ≡ ys
unfolding nats_eq
nats_eq→eq [] [] h = refl
nats_eq→eq [] (y ∷ ys) h = cc
nats_eq→eq (x ∷ xs) [] h = cc
nats_eq→eq (x ∷ xs) (y ∷ ys) h = ground (arith, nats_eq→eq xs ys)

pub nats_eq_refl : (xs : List ℕ) → nats_eq xs xs ≡ true
unfolding nats_eq
nats_eq_refl [] = refl
nats_eq_refl (x ∷ xs) = ground (arith, nats_eq_refl xs)

module _ {A : Type 0} (p : A → Bool) where
  pub anyb-false : (xs : List A) → anyb p xs ≡ false → All (λ x. p x ≡ false) xs
  anyb-false [] h = tt
  anyb-false (x ∷ xs) h = let (a, b) = ||_false (p x) (anyb p xs) h in (a, anyb-false xs b)

  pub allb-true : (xs : List A) → allb p xs ≡ true → All (λ x. p x ≡ true) xs
  allb-true [] h = tt
  allb-true (x ∷ xs) h = let (a, b) = &&_true (p x) (allb p xs) h in (a, allb-true xs b)
