-- ===== src/Retirement/Lottery/Picks.antt =====
-- The elements at the positions of a draw of crates/naome-memory-core/src/retirement.rs: a sample without
-- replacement is a part of the population, each element at most as often as it stands there.
use mathlib.Core.List.{Permᴰ}
use mathlib.Core.List.Permᴰ as Permᴰ
use naome_memory.Base.{
  ℕ, zero, suc, ◌+◌, ◌<◌, ◌≡◌, refl, sym, ap, ◌∙◌, subst, List, [], ◌∷◌, ◌++◌, Bool, true, false,
  Option, none, some, length, inl, inr, All, Has, arith, filterb, filter_map, get_elem?,
  set_contains, nat_ord, Option-cases, Bool-cases, All-of_Has, All-Has, ||_false, All-map, min,
  Has-append_left, Has-filterb,
}
use mathlib.Core.Path.{ap₂}
use naome_memory.Base.Sets.{Distinct}
use naome_memory.Retirement.Lottery.{range}
use naome_memory.Retirement.Lottery.Sampling.{IsSample}

Has-Permᴰ : {A : Type 0} (a : A) {xs ys : List A} → Permᴰ xs ys → Has a xs → Has a ys
Has-Permᴰ a Permᴰ.nil m = m
Has-Permᴰ a (Permᴰ.cons e p) (inl f) = inl (sym e ∙ f)
Has-Permᴰ a (Permᴰ.cons e p) (inr m) = inr (Has-Permᴰ a p m)
Has-Permᴰ a (Permᴰ.swap e f) (inl g) = inr (inl (sym e ∙ g))
Has-Permᴰ a (Permᴰ.swap e f) (inr (inl g)) = inl (sym f ∙ g)
Has-Permᴰ a (Permᴰ.swap e f) (inr (inr m)) = inr (inr m)
Has-Permᴰ a (Permᴰ.trans p q) m = Has-Permᴰ a q (Has-Permᴰ a p m)

-- An element in front of the others.
in_front : {A : Type 0} (x : A) (ys : List A) → Has x ys → (rest : List A) × Permᴰ ys (x ∷ rest)
in_front x [] m = absurd m
in_front x (y ∷ ys) (inl e) = (ys, Permᴰ.cons e (Permᴰ.refl ys))
in_front x (y ∷ ys) (inr m) =
    let (rest, p) = in_front x ys m in
    (y ∷ rest, Permᴰ.trans (Permᴰ.cons refl p) (Permᴰ.swap refl refl))

apart : (x z : ℕ) (xs : List ℕ) → set_contains x xs ≡ false → Has z xs → x ≡ z → ⊥
apart x z [] h m e = m
apart x z (y ∷ ys) h (inl f) e = ground arith
apart x z (y ∷ ys) h (inr m) e = apart x z ys (||_false _ (set_contains x ys) h).1 m e

-- Distinct elements of a list are a part of it.
part_of :
    (xs ys : List ℕ)
    → Distinct xs
    → All (λ x. Has x ys) xs
    → (rest : List ℕ) × Permᴰ (xs ++ rest) ys
part_of [] ys d h = (ys, Permᴰ.refl ys)
part_of (x ∷ xs) ys d h =
    let (others, p) = in_front x ys h.0 in
    let (rest, q) = part_of xs others d.1 (
      All-of_Has _ xs (λ z m. elim (Has-Permᴰ z p (All-Has _ xs z h.1 m)) [
        | inl e ↦ absurd (apart x z xs d.0 m e)
        | inr n ↦ n
      ])) in
    (rest, Permᴰ.trans (Permᴰ.cons refl q) (Permᴰ.symm p))

module _ {A B : Type 0} (f : A → Option B) where
  abbrev push : Option B → List B → List B
  push none bs = bs
  push (some b) bs = b ∷ bs

  filter_map-cons : (x : A) (xs : List A) → filter_map f (x ∷ xs) ≡ push (f x) (filter_map f xs)
  filter_map-cons x xs = elim (Option-cases (f x)) [
    | inl e ↦ rw (e, filter_map) refl
    | inr (b, e) ↦ rw (e, filter_map) refl
  ]

  push-append : (o : Option B) (bs cs : List B) → push o (bs ++ cs) ≡ push o bs ++ cs
  push-append none bs cs = refl
  push-append (some b) bs cs = refl

  push-Permᴰ : (o : Option B) (bs cs : List B) → Permᴰ bs cs → Permᴰ (push o bs) (push o cs)
  push-Permᴰ none bs cs p = p
  push-Permᴰ (some b) bs cs p = Permᴰ.cons refl p

  push-swap : (o p : Option B) (bs : List B) → Permᴰ (push o (push p bs)) (push p (push o bs))
  push-swap none p bs = Permᴰ.refl (push p bs)
  push-swap (some b) none bs = Permᴰ.refl (b ∷ bs)
  push-swap (some b) (some c) bs = Permᴰ.swap refl refl

  pub filter_map-append :
      (xs ys : List A) → filter_map f (xs ++ ys) ≡ filter_map f xs ++ filter_map f ys
  filter_map-append [] ys = refl
  filter_map-append (x ∷ xs) ys =
      filter_map-cons x (xs ++ ys)
      ∙ ap (push (f x)) (filter_map-append xs ys)
      ∙ push-append (f x) (filter_map f xs) (filter_map f ys)
      ∙ ap (λ bs. bs ++ filter_map f ys) (sym (filter_map-cons x xs))

  pub filter_map-Permᴰ : {xs ys : List A} → Permᴰ xs ys → Permᴰ (filter_map f xs) (filter_map f ys)
  filter_map-Permᴰ Permᴰ.nil = Permᴰ.nil
  filter_map-Permᴰ (Permᴰ.cons {a = x} {b = y} {l₁ = l} {l₂ = m} e p) =
      subst (λ bs. Permᴰ bs (filter_map f (y ∷ m))) (sym (filter_map-cons x l))
        (subst (Permᴰ (push (f x) (filter_map f l)))
          (ap (λ z. push (f z) (filter_map f m)) e ∙ sym (filter_map-cons y m))
          (push-Permᴰ (f x) (filter_map f l) (filter_map f m) (filter_map-Permᴰ p)))
  filter_map-Permᴰ (Permᴰ.swap {a = x} {b = y} {a' = y'} {b' = x'} {l = l} e g) =
      let twice = λ (u v : A). filter_map-cons u (v ∷ l) ∙ ap (push (f u)) (filter_map-cons v l) in
      subst (λ bs. Permᴰ bs (filter_map f (y' ∷ x' ∷ l))) (sym (twice x y))
        (subst (Permᴰ (push (f x) (push (f y) (filter_map f l))))
          (ap₂ (λ u v. push (f u) (push (f v) (filter_map f l))) g e ∙ sym (twice y' x'))
          (push-swap (f x) (f y) (filter_map f l)))
  filter_map-Permᴰ (Permᴰ.trans p q) = Permᴰ.trans (filter_map-Permᴰ p) (filter_map-Permᴰ q)

next : (n : ℕ) → suc (n + 1) ≡ suc n + 1
next n = omega arith

module _ {A : Type 0} (g : Option A → Bool) where
  shifted :
      (x : A) (xs : List A) (count from : ℕ)
      → filter_map
          (get_elem? (x ∷ xs))
          (filterb (λ i. g (get_elem? (x ∷ xs) i)) (range count (suc from)))
        ≡ filter_map (get_elem? xs) (filterb (λ i. g (get_elem? xs i)) (range count from))
  unfolding range
  shifted x xs zero from = refl
  shifted x xs (suc count) from =
      let rest =
        subst
          (λ n.
            filter_map (get_elem? (x ∷ xs))
              (filterb (λ i. g (get_elem? (x ∷ xs) i)) (range count n))
            ≡ filter_map (get_elem? xs)
                (filterb (λ i. g (get_elem? xs i)) (range count (from + 1))))
          (next from) (shifted x xs count (from + 1)) in
      elim (Bool-cases (g (get_elem? xs from))) [
        | inl e ↦ rw e (
            filter_map-cons (get_elem? (x ∷ xs)) (suc from) _
            ∙ ap (push (get_elem? xs) (get_elem? xs from)) rest
            ∙ sym (filter_map-cons (get_elem? xs) from _))
        | inr e ↦ rw e rest
      ]

  -- The elements at the positions whose element passes a test are those that pass it.
  pub elements-filterb :
      (xs : List A)
      → filter_map (get_elem? xs) (filterb (λ i. g (get_elem? xs i)) (range (length xs) 0))
        ≡ filterb (λ x. g (some x)) xs
  unfolding range
  elements-filterb [] = refl
  elements-filterb (x ∷ xs) =
      let rest = shifted x xs (length xs) 0 ∙ elements-filterb xs in
      elim (Bool-cases (g (some x))) [ inl e ↦ rw e (ap (λ ys. x ∷ ys) rest) | inr e ↦ rw e rest ]

Has-range : (count from k : ℕ) → k < count → Has (from + k) (range count from)
unfolding range
Has-range zero from k h = absurd (omega arith)
Has-range (suc count) from zero h = inl (omega arith)
Has-range (suc count) from (suc k) h = inr (
    subst (λ n. Has n (range count (from + 1))) (omega arith)
      (Has-range count (from + 1) k (omega arith)))

none_add : (n : ℕ) → 0 + n ≡ n
none_add n = omega arith

in_range : {A : Type 0} (xs : List A) (p : ℕ) → p < length xs → get_elem? xs p ≡ none → ⊥
in_range [] p h e = omega arith
in_range (x ∷ xs) zero h e = cc
in_range (x ∷ xs) (suc p) h e = in_range xs p (omega arith) e

kept_all : {A : Type 0} (xs : List A) → filterb (λ x. true) xs ≡ xs
kept_all [] = refl
kept_all (x ∷ xs) = ap (λ ys. x ∷ ys) (kept_all xs)

all_elements : {A : Type 0} (xs : List A) → filter_map (get_elem? xs) (range (length xs) 0) ≡ xs
all_elements xs =
    ap (filter_map (get_elem? xs)) (sym (kept_all (range (length xs) 0)))
    ∙ elements-filterb (λ o. true) xs
    ∙ kept_all xs

-- Positions that are in range have as many elements.
length-elements :
    {A : Type 0} (xs : List A) (positions : List ℕ)
    → All (λ p. p < length xs) positions
    → length (filter_map (get_elem? xs) positions) ≡ length positions
length-elements xs [] h = refl
length-elements xs (p ∷ ps) h = elim (Option-cases (get_elem? xs p)) [
  | inl e ↦ absurd (in_range xs p h.0 e)
  | inr (x, e) ↦ rw (e, filter_map) (ap suc (length-elements xs ps h.1))
]

range-lt : (count from k : ℕ) → Has k (range count from) → k < from + count
unfolding range
range-lt zero from k m = absurd m
range-lt (suc count) from k (inl e) = omega arith
range-lt (suc count) from k (inr m) = omega (arith, range-lt count (from + 1) k m)

-- As many elements as positions, where these are some of a range that passes a test.
pub length-elements-filterb :
    {A : Type 0} (xs : List A) (test : ℕ → Bool) (positions left : List ℕ)
    → Permᴰ (positions ++ left) (filterb test (range (length xs) 0))
    → length (filter_map (get_elem? xs) positions) ≡ length positions
length-elements-filterb xs test positions left p = length-elements xs positions (
    All-of_Has (λ k. k < length xs) positions
      (λ k m.
        let among = Has-Permᴰ k p (Has-append_left positions left k m) in
        let (known, _) = Has-filterb test (range (length xs) 0) k among in
        omega (arith, range-lt (length xs) 0 k known)))

-- A sample of positions picks a part of the list, of its size.
pub sample-part :
    {A : Type 0} (xs : List A) (count : ℕ) (positions : List ℕ)
    → IsSample (length xs) count positions
    → (length (filter_map (get_elem? xs) positions) ≡ min count (length xs))
      × ((rest : List A) × Permᴰ (filter_map (get_elem? xs) positions ++ rest) xs)
sample-part xs count positions sample =
    let known =
      All-map (λ p. p < length xs) (λ p. Has p (range (length xs) 0)) positions
        (λ p small.
          subst (λ n. Has n (range (length xs) 0)) (none_add p) (Has-range (length xs) 0 p small))
        sample.below in
    let (left, p) = part_of positions (range (length xs) 0) sample.distinct known in
    let picked = filter_map-Permᴰ (get_elem? xs) p in
    (
      length-elements xs positions sample.below ∙ sample.sized,
      (
        filter_map (get_elem? xs) left,
        subst (λ ys. Permᴰ ys xs) (filter_map-append (get_elem? xs) positions left)
            (subst (Permᴰ (filter_map (get_elem? xs) (positions ++ left))) (all_elements xs)
              picked),
      ),
    )
