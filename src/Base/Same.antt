-- ===== src/Base/Same.antt =====
-- `==` of derived `PartialEq`, by a decision.
use mathlib.Core.Path.{◌≡◌, refl}
use mathlib.Core.Bool.{Bool, true, false, ◌||◌}
use mathlib.Core.List.{List, [], ◌∷◌}
use naome_memory.Base.Lists.{All}
use naome_memory.Base.Tests.{||_false, true-ne-false}

abbrev pub same {ℓ} : {A : Type ℓ} → Discrete A → A → A → Bool
same d a b = elim (d a b) [ yes e ↦ true | no n ↦ false ]

decided {ℓ} :
    {A : Type ℓ} {a b : A} (t : Dec (a ≡ b))
    → ◌≡◌ {A = Bool} (elim t [ yes e ↦ true | no n ↦ false ]) true
    → a ≡ b
decided (yes e) h = e
decided (no n) h = absurd (true-ne-false h refl)

reflexive {ℓ} :
    {A : Type ℓ} {a : A} (t : Dec (a ≡ a))
    → ◌≡◌ {A = Bool} (elim t [ yes e ↦ true | no n ↦ false ]) true
reflexive (yes e) = refl
reflexive (no n) = absurd (n refl)

pub same-eq {ℓ} : {A : Type ℓ} (d : Discrete A) (a b : A) → same d a b ≡ true → a ≡ b
same-eq d a b h = decided (d a b) h

pub same_self {ℓ} : {A : Type ℓ} (d : Discrete A) (a : A) → same d a a ≡ true
same_self d a = reflexive (d a a)

-- `t₁ || t₂ || …`
abbrev pub any_true : List Bool → Bool
any_true [] = false
any_true (t ∷ ts) = t || any_true ts

pub any_true-false : (ts : List Bool) → any_true ts ≡ false → All (λ t. t ≡ false) ts
any_true-false [] h = tt
any_true-false (t ∷ ts) h = let (a, b) = ||_false t (any_true ts) h in (a, any_true-false ts b)
