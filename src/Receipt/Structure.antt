-- ===== src/Receipt/Structure.antt =====
-- crates/naome-memory-core/src/receipt.rs: `verify_plan_structure` of what Projected and Evidence check.
pub mod Projected
pub mod Evidence
use naome_memory.Base.{
  ℕ, String, Bool, true, false, not, ◌&&◌, ◌||◌, List, [], ◌∷◌, Option, none, some, map, min,
  length, filterb, ltb, leb, ◌==◌, if◌then◌else◌, str_eq, str_empty, is_some, get_elem?, same,
  any_true, set_of, set_insert, set_contains, nat_ord, nats_eq, checked_add, saturating_add, is_nil,
}
use native.Mathlib.Decide.{ℕ_discrete}
use naome_memory.Error.{
  Result, ok, err, ok_or, reject_if, each, ◌>>=◌, ◌>>◌, receipt_rejected, unknown_version,
  policy_mismatch,
}
use naome_memory.Fixed.{ceil_count}
use naome_memory.Policy.{Policy, poc_v1}
use naome_memory.Atom.{
  AtomId, MemoryKind, RetentionPermission, semantic_and_exact_allowed, RetentionTier,
  episodic_long_term, header_only, semantic_long_term, ContentStatus, present, forgotten,
  ConsolidationScore, MemoryPayload, SemanticPayload,
}
use naome_memory.Externals.{Externals}
use naome_memory.Digests.{policy_digest, atom_id, encoded_size_bytes}
use naome_memory.Validation.{validate_memory_atom_body, increasing}
use naome_memory.Seal.Input.{same_text}
use naome_memory.Seal.Episode.{same_id}
use naome_memory.Retirement.Types.{
  RetirementPlan, RetirementDecision, PlannedSemanticAtom, SemanticCandidateDecision,
  RetirementPostStateAtom, SemanticCandidateDisposition, selected, skipped_atom_hard_limit,
  skipped_count_budget, skipped_byte_budget,
}
use naome_memory.Retirement.PostState.{zip, provenance_digest, post_state_digest}
use naome_memory.Receipt.Structure.Projected.{
  MemoryKind-discrete, RetentionTier-discrete, ContentStatus-discrete, RetentionPermission-discrete,
  source_tests, ensure_source_state, ensure_semantic_state, verify_projected_post_state,
}
use naome_memory.Receipt.Structure.Evidence.{
  SemanticCandidateDisposition-discrete, ConsolidationScore-discrete, ensure_semantic_from,
  ensure_sources_from, ensure_ranked, expected_semantic_disposition, ensure_evidence,
  ensure_dispositions_from, ensure_semantic_evidence,
}

unfoldable pub ensure_sorted_unique_decisions : List RetirementDecision → Result (Unit {0})
unfolding increasing
ensure_sorted_unique_decisions decisions =
    reject_if (not (increasing (map (λ d. d.atom_id) decisions)))
      (receipt_rejected "decisions are not strictly atom-id ordered")

-- `try_fold` of the sizes of the semantic atoms.
unfoldable pub semantic_bytes_from : ℕ → List PlannedSemanticAtom → Result ℕ
semantic_bytes_from total [] = ok total
semantic_bytes_from total (semantic ∷ semantics) = do
  next ←
      ok_or (checked_add total semantic.canonical_size_bytes)
        (receipt_rejected "semantic body byte count overflow")
  semantic_bytes_from next semantics

unfoldable pub ensure_lottery : RetirementPlan → Policy → ℕ → Result (Unit {0})
unfolding set_of nats_eq ceil_count
ensure_lottery plan policy semantic_body_bytes =
    reject_if
      (any_true (
        not (
          nats_eq (set_of plan.episodic_winners)
            (set_of (map (λ d. d.atom_id) (filterb (λ d. d.exact_retained) plan.decisions))))
        ∷ not (
            plan.episodic_winner_budget
            == min (ceil_count policy.episodic_rate plan.episodic_population_count)
                policy.episodic_count_max)
        ∷ not (length plan.episodic_winners == plan.episodic_winner_budget)
        ∷ not (
            plan.semantic_count_budget
            == min (ceil_count policy.semantic_rate (length plan.decisions))
                policy.semantic_count_max)
        ∷ not (plan.semantic_body_bytes == semantic_body_bytes)
        ∷ ltb policy.episodic_pin_budget_bytes plan.episodic_winner_bytes
        ∷ []))
      (receipt_rejected "lottery or semantic budget mismatch")

module _ (ext : Externals) where
  unfoldable pub verify_plan_structure : RetirementPlan → Result (Unit {0})
  unfolding increasing
  verify_plan_structure plan = do
    reject_if (not (str_eq plan.contract_version "retirement-plan-v1"))
        (unknown_version plan.contract_version)
    reject_if (not (str_eq plan.policy_id "poc-v1")) policy_mismatch
    digest ← policy_digest ext poc_v1
    reject_if
        (not (plan.policy_digest == digest)
          || not (str_eq plan.rng_identifier "chacha20-rand_chacha-0.3/partial-fisher-yates-v1"))
        policy_mismatch
    verify_projected_post_state ext plan poc_v1
    state_digest ← post_state_digest ext plan.projected_post_state
    reject_if (not (state_digest == plan.projected_state_digest))
        (receipt_rejected "projected state digest mismatch")
    ensure_sorted_unique_decisions plan.decisions
    ensure_semantic_evidence ext plan poc_v1
    reject_if (not (increasing plan.episodic_winners))
        (receipt_rejected "episodic winners are not strictly atom-id ordered")
    semantic_body_bytes ← semantic_bytes_from 0 plan.semantic_atoms
    ensure_lottery plan poc_v1 semantic_body_bytes
