-- ===== src/Receipt/Budgeted.antt =====
-- crates/naome-memory-core/src/receipt.rs: the orders, the counts and the sums that `verify_plan_structure`
-- checks.
use naome_memory.Base.{
  ℕ, suc, ◌+◌, ◌≤◌, ◌≡◌, ◌∙◌, refl, sym, ap, Bool, true, false, not, List, [], ◌∷◌, some, map,
  filterb, All, arith, ltb, if◌then◌else◌, same, same-eq, nat_ord, some_inj, checked_add,
  saturating_add, u64_mod, Bool-cases,
}
use naome_memory.Base.Sets.{IsSetOf, below_trans}
use Prim.Native.Nat.{compare}
use mathlib.Core.Logic.{inl, inr}
use Prim.Native.Nat.Ordering.{lt}
use naome_memory.Error.{
  ok, ok_or, ok_or-eq-ok, >>=-eq-ok, >>-eq-ok, reject_if-eq-ok, ok_inj, receipt_rejected,
}
use naome_memory.Validation.{increasing}
use naome_memory.Policy.{Policy}
use naome_memory.Retirement.Types.{
  PlannedSemanticAtom, SemanticCandidateDecision, SemanticCandidateDisposition, selected,
  skipped_atom_hard_limit, skipped_count_budget, skipped_byte_budget,
}
use naome_memory.Receipt.Structure.Evidence.{
  ensure_dispositions_from, expected_semantic_disposition, ensure_evidence,
  SemanticCandidateDisposition-discrete,
}
use naome_memory.Receipt.Structure.{semantic_bytes_from}

pub increasing-IsSetOf : (xs : List ℕ) → increasing xs ≡ true → IsSetOf xs
unfolding increasing
increasing-IsSetOf [] h = tt
increasing-IsSetOf (x ∷ []) h = (tt, tt)
increasing-IsSetOf (x ∷ y ∷ rest) h =
    let below : compare x y ≡ lt = ground arith in
    let more : increasing (y ∷ rest) ≡ true = ground arith in
    let s = increasing-IsSetOf (y ∷ rest) more in ((below, below_trans x y rest below s.0), s)

module _ {A : Type 0} (f : A → ℕ) (p : A → Bool) where
  All-filterb : (P : ℕ → Type 0) (xs : List A) → All P (map f xs) → All P (map f (filterb p xs))
  All-filterb P [] h = tt
  All-filterb P (x ∷ xs) h = elim (Bool-cases (p x)) [
    | inl e ↦ rw e (h.0, All-filterb P xs h.1)
    | inr e ↦ rw e (All-filterb P xs h.1)
  ]

  pub IsSetOf-filterb : (xs : List A) → IsSetOf (map f xs) → IsSetOf (map f (filterb p xs))
  IsSetOf-filterb [] s = tt
  IsSetOf-filterb (x ∷ xs) s = elim (Bool-cases (p x)) [
    | inl e ↦ rw e (All-filterb (λ y. compare (f x) y ≡ lt) xs s.0, IsSetOf-filterb xs s.1)
    | inr e ↦ rw e (IsSetOf-filterb xs s.1)
  ]

-- The bytes that are folded are the sum, and the code reports an overflow rather than wrap.
abbrev pub body_bytes : List PlannedSemanticAtom → ℕ
body_bytes [] = 0
body_bytes (semantic ∷ semantics) = semantic.canonical_size_bytes + body_bytes semantics

checked_add-eq : (a b c : ℕ) → checked_add a b ≡ some c → c ≡ a + b
checked_add-eq a b c h = elim (Bool-cases (ltb (a + b) u64_mod)) [
  | inl e ↦ sym (some_inj (rw e at h))
  | inr e ↦ let h₁ = rw e at h in cc
]

pub semantic_bytes_from-sum :
    (total sum : ℕ) (semantics : List PlannedSemanticAtom)
    → semantic_bytes_from total semantics ≡ ok sum
    → sum ≡ total + body_bytes semantics
unfolding semantic_bytes_from
semantic_bytes_from-sum total sum [] h = let e = ok_inj h in omega arith
semantic_bytes_from-sum total sum (semantic ∷ semantics) h =
    let (next, there, h₁) =
      >>=-eq-ok
        (ok_or (checked_add total semantic.canonical_size_bytes)
          (receipt_rejected "semantic body byte count overflow"))
        _ h in
    let added = ok_or-eq-ok (checked_add total semantic.canonical_size_bytes) _ there in
    let exact = checked_add-eq total semantic.canonical_size_bytes next added in
    let rest = semantic_bytes_from-sum next sum semantics h₁ in omega arith

no_room :
    (hard count bytes : Bool)
    → (if hard
        then skipped_atom_hard_limit
        else if count
        then skipped_count_budget
        else if bytes
        then skipped_byte_budget
        else selected)
      ≡ selected
    → count ≡ false
no_room true count bytes h = cc
no_room false true bytes h = cc
no_room false false bytes h = refl

-- A candidate is to be selected only where the budget has room.
expected_semantic_disposition-lt :
    (candidate_bytes selected_count selected_bytes count_budget : ℕ) (policy : Policy)
    (expected : SemanticCandidateDisposition × ℕ)
    → expected_semantic_disposition candidate_bytes selected_count selected_bytes count_budget
        policy
      ≡ ok expected
    → expected.0 ≡ selected
    → suc selected_count ≤ count_budget
unfolding expected_semantic_disposition
expected_semantic_disposition-lt candidate_bytes selected_count selected_bytes count_budget policy
      expected h e =
    let (next, _, h₁) = >>=-eq-ok (ok_or (checked_add selected_bytes candidate_bytes) _) _ h in
    let chosen = ap (λ (p : SemanticCandidateDisposition × ℕ). p.0) (ok_inj h₁) ∙ e in
    let room = no_room _ _ _ chosen in ground arith

-- No more candidates are selected than the budget allows.
pub ensure_dispositions_from-le :
    (semantic_atoms : List PlannedSemanticAtom) (count_budget : ℕ) (policy : Policy)
    (selected_count selected_bytes final : ℕ) (decisions : List SemanticCandidateDecision)
    → selected_count ≤ count_budget
    → ensure_dispositions_from semantic_atoms count_budget policy selected_count selected_bytes
        selected_count decisions
      ≡ ok final
    → final ≤ count_budget
unfolding ensure_dispositions_from
ensure_dispositions_from-le semantic_atoms count_budget policy selected_count selected_bytes final
      [] within h =
    let e = ok_inj h in omega arith
ensure_dispositions_from-le semantic_atoms count_budget policy selected_count selected_bytes final
      (decision ∷ decisions) within h =
    let (expected, made, h₁) =
      >>=-eq-ok
        (expected_semantic_disposition decision.canonical_size_bytes selected_count selected_bytes
          count_budget policy)
        _ h in
    let (_, h₂) =
      reject_if-eq-ok
        (not (same SemanticCandidateDisposition-discrete decision.disposition expected.0)) _ _ h₁ in
    elim (Bool-cases (same SemanticCandidateDisposition-discrete expected.0 selected)) [
      | inl e ↦
          let room =
            expected_semantic_disposition-lt decision.canonical_size_bytes selected_count
              selected_bytes count_budget policy expected made
              (same-eq SemanticCandidateDisposition-discrete expected.0 selected e) in
          let h₃ = rw e at h₂ in
          let (_, h₄) = >>-eq-ok (ensure_evidence semantic_atoms selected_count decision) _ h₃ in
          ensure_dispositions_from-le semantic_atoms count_budget policy
            (saturating_add selected_count 1) expected.1 final decisions (omega arith) h₄
      | inr e ↦
          let h₃ = rw e at h₂ in
          ensure_dispositions_from-le semantic_atoms count_budget policy selected_count
            selected_bytes final decisions within h₃
    ]
