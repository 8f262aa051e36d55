-- ===== src/Base/Order.antt =====
-- The orders of std's `Ord`: numbers, texts, and pairs lexicographically.
use Prim.Native.Nat.{ℕ, compare, Ordering}
use Prim.Native.Nat.Ordering.{lt, eq, gt}
use Prim.Native.Char.{code}
use Prim.Native.String.{String, then as or_else}
use Prim.Native.String
use Prim.Native.String.compare as compare_text
use mathlib.Core.Path.{◌≡◌, refl, sym, ap, ap₂, ◌∙◌}
use mathlib.Core.Bool.{Bool, true, false}
use mathlib.Core.Logic.{◌⊎◌, inl, inr}
use native.Mathlib.Omega.{arith}
use text.Mathlib.TextEquality.{path_by_compare, codes_equal}
use text.Mathlib.TextPositions.{compare_refl}

abbrev pub flip : Ordering → Ordering
flip lt = gt
flip eq = eq
flip gt = lt

abbrev pub is_eq : Ordering → Bool
is_eq eq = true
is_eq lt = false
is_eq gt = false

-- What the trait asks of `cmp`; its `==` is the path type.
pub record IsTotal {A : Type 0} (cmp : A → A → Ordering) : Type 0 where
  pub cmp_self : (a : A) → cmp a a ≡ eq
  pub cmp_eq : (a b : A) → cmp a b ≡ eq → a ≡ b
  pub cmp_flip : (a b : A) → cmp b a ≡ flip (cmp a b)
  pub cmp_trans : (a b c : A) → cmp a b ≡ lt → cmp b c ≡ lt → cmp a c ≡ lt

pub record Ord (A : Type 0) : Type 0 where
  pub cmp : A → A → Ordering
  pub total : IsTotal cmp
  pub open total use *

pub compare-IsTotal : IsTotal compare
compare-IsTotal = record {
  cmp_self = λ a. ground arith;
  cmp_eq = λ a b h. ground arith;
  cmp_flip = λ a b. ground arith;
  cmp_trans = λ a b c h k. ground arith;
}

instance abbrev pub nat_ord : Ord ℕ
nat_ord = record { cmp = compare; total = compare-IsTotal }

flip-or_else : (a b : Ordering) → flip (or_else a b) ≡ or_else (flip a) (flip b)
flip-or_else lt b = refl
flip-or_else eq b = refl
flip-or_else gt b = refl

text_flip : (s t : String) → String.compare t s ≡ flip (String.compare s t)
text_flip String.[] String.[] = compare_text.nil-nil ∙ sym (ap flip compare_text.nil-nil)
text_flip String.[] (String.◌∷◌ d t) =
    compare_text.cons-nil d t ∙ sym (ap flip (compare_text.nil-cons d t))
text_flip (String.◌∷◌ c s) String.[] =
    compare_text.nil-cons c s ∙ sym (ap flip (compare_text.cons-nil c s))
text_flip (String.◌∷◌ c s) (String.◌∷◌ d t) =
    compare_text.cons-cons d c t s
    ∙ ap₂ or_else (compare-IsTotal.cmp_flip (code c) (code d)) (text_flip s t)
    ∙ sym (flip-or_else (compare (code c) (code d)) (String.compare s t))
    ∙ sym (ap flip (compare_text.cons-cons c d s t))

text_trans :
    (s t u : String) → String.compare s t ≡ lt → String.compare t u ≡ lt → String.compare s u ≡ lt
text_trans String.[] t String.[] h k = ground (arith, text_flip t String.[])
text_trans String.[] t (String.◌∷◌ e u) h k = compare_text.nil-cons e u
text_trans (String.◌∷◌ c s) String.[] u h k =
    let e : String.compare (String.◌∷◌ c s) String.[] ≡ gt = compare_text.cons-nil c s in cc
text_trans (String.◌∷◌ c s) (String.◌∷◌ d t) String.[] h k =
    let e : String.compare (String.◌∷◌ d t) String.[] ≡ gt = compare_text.cons-nil d t in cc
text_trans (String.◌∷◌ c s) (String.◌∷◌ d t) (String.◌∷◌ e u) h k =
    let e₁ : String.compare (String.◌∷◌ c s) (String.◌∷◌ d t)
        ≡ or_else (compare (code c) (code d)) (String.compare s t) =
      compare_text.cons-cons c d s t in
    let e₂ : String.compare (String.◌∷◌ d t) (String.◌∷◌ e u)
        ≡ or_else (compare (code d) (code e)) (String.compare t u) =
      compare_text.cons-cons d e t u in
    let e₃ : String.compare (String.◌∷◌ c s) (String.◌∷◌ e u)
        ≡ or_else (compare (code c) (code e)) (String.compare s u) =
      compare_text.cons-cons c e s u in
    ground (arith, text_trans s t u, codes_equal c d)

pub text-IsTotal : IsTotal String.compare
text-IsTotal = record {
  cmp_self = compare_refl;
  cmp_eq = path_by_compare;
  cmp_flip = text_flip;
  cmp_trans = text_trans;
}

-- `str` compares by bytes, which for UTF-8 is the order by code points.
instance abbrev pub string_ord : Ord String
string_ord = record { cmp = String.compare; total = text-IsTotal }

module _ {A B : Type 0} ⦃a : Ord A⦄ ⦃b : Ord B⦄ where
  abbrev pub lex : A × B → A × B → Ordering
  lex x y = or_else (a.cmp x.0 y.0) (b.cmp x.1 y.1)

  pub lex-IsTotal : IsTotal lex
  lex-IsTotal = record {
    cmp_self = λ x. simp (a.cmp_self, b.cmp_self);
    cmp_eq = λ x y h. ground (arith, a.cmp_eq x.0 y.0, b.cmp_eq x.1 y.1);
    cmp_flip = λ x y. ground (arith, a.cmp_flip x.0 y.0, b.cmp_flip x.1 y.1);
    cmp_trans =
        λ x y z h k. grind (arith, a.cmp_eq x.0 y.0, a.cmp_eq y.0 z.0, a.cmp_trans, b.cmp_trans);
  }

  instance abbrev pub pair_ord : Ord (A × B)
  pair_ord = record { cmp = lex; total = lex-IsTotal }

pub Ordering-cases : (c : Ordering) → (c ≡ lt) ⊎ ((c ≡ eq) ⊎ (c ≡ gt))
Ordering-cases lt = inl refl
Ordering-cases eq = inr (inl refl)
Ordering-cases gt = inr (inr refl)
