-- ===== src/Receipt/Compared.antt =====
-- crates/naome-memory-core/src/receipt.rs: the comparisons, by `!=`, of `verify_receipt`.
use naome_memory.Base.{
  ℕ, ◌≡◌, refl, ap, subst, String, Bool, true, false, not, List, [], ◌∷◌, All, arith, str_eq,
  str_eq_iff, ◌==◌, same, same-eq, same_self, any_true, not-false,
}

pub number_eq : (a b : ℕ) → not (a == b) ≡ false → a ≡ b
number_eq a b h = ground arith

pub text_eq : (a b : String) → not (str_eq a b) ≡ false → a ≡ b
text_eq a b h = (str_eq_iff a b).0 (not-false (str_eq a b) h)

pub decided_eq : {A : Type 0} (d : Discrete A) (a b : A) → not (same d a b) ≡ false → a ≡ b
decided_eq d a b h = same-eq d a b (not-false (same d a b) h)

pub number_self : (a b : ℕ) → a ≡ b → not (a == b) ≡ false
number_self a b e = ground arith

pub text_self : (a b : String) → a ≡ b → not (str_eq a b) ≡ false
text_self a b e = ap not ((str_eq_iff a b).1 e)

pub decided_self : {A : Type 0} (d : Discrete A) (a b : A) → a ≡ b → not (same d a b) ≡ false
decided_self d a b e = ap not (subst (λ c. same d a c ≡ true) e (same_self d a))

pub any_true-of_All : (ts : List Bool) → All (λ t. t ≡ false) ts → any_true ts ≡ false
any_true-of_All [] h = refl
any_true-of_All (t ∷ ts) h = rw h.0 (any_true-of_All ts h.1)
