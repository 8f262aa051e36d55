-- ===== src/Receipt/Structure/Evidence.antt =====
-- crates/naome-memory-core/src/receipt.rs: `ensure_semantic_evidence`, with the loop of `ensure_semantic_atoms`.
use naome_memory.Base.{
  ℕ, true, false, not, ◌&&◌, ◌||◌, List, [], ◌∷◌, length, ltb, leb, ◌==◌, if◌then◌else◌, str_eq,
  get_elem?, same, any_true, set_insert, set_contains, nat_ord, nats_eq, checked_add,
  saturating_add,
}
use native.Mathlib.Decide.{ℕ_discrete}
use naome_memory.Error.{Result, ok, err, ok_or, reject_if, ◌>>=◌, ◌>>◌, receipt_rejected}
use naome_memory.Policy.{Policy}
use naome_memory.Atom.{AtomId, ConsolidationScore, MemoryPayload, SemanticPayload}
use naome_memory.Externals.{Externals}
use naome_memory.Digests.{atom_id, encoded_size_bytes}
use naome_memory.Validation.{validate_memory_atom_body, increasing}
use naome_memory.Retirement.Types.{
  RetirementPlan, PlannedSemanticAtom, SemanticCandidateDecision, SemanticCandidateDisposition,
  selected, skipped_atom_hard_limit, skipped_count_budget, skipped_byte_budget,
}

unfoldable pub SemanticCandidateDisposition-discrete : Discrete SemanticCandidateDisposition
SemanticCandidateDisposition-discrete = hlevel

unfoldable pub ConsolidationScore-discrete : Discrete ConsolidationScore
unfolding ℕ_discrete
ConsolidationScore-discrete = hlevel ℕ_discrete

module _ (ext : Externals) where
  -- The loop over the semantic atoms, with the identifiers seen so far.
  unfoldable pub ensure_semantic_from :
      Policy → List AtomId → List PlannedSemanticAtom → Result (Unit {0})
  unfolding set_insert
  ensure_semantic_from policy seen [] = ok tt
  ensure_semantic_from policy seen (semantic ∷ semantics) = do
    reject_if (set_contains semantic.atom_id seen)
        (receipt_rejected "semantic atom id occurs more than once")
    validate_memory_atom_body ext policy semantic.body
    reject_if (not (str_eq semantic.body.contract_version "atom-v1"))
        (receipt_rejected "semantic atom authority mismatch")
    id ← atom_id ext semantic.body
    reject_if (not (id == semantic.atom_id) || not (semantic.body_digest == semantic.atom_id))
        (receipt_rejected "semantic atom authority mismatch")
    size ← encoded_size_bytes ext semantic.body
    reject_if (not (size == semantic.canonical_size_bytes))
        (receipt_rejected "semantic atom authority mismatch")
    ensure_semantic_from policy (set_insert semantic.atom_id seen) semantics

-- The loop over the sources of the semantic candidates, with the identifiers seen so far.
unfoldable pub ensure_sources_from :
    Policy → List AtomId → List SemanticCandidateDecision → Result (Unit {0})
unfolding set_insert increasing
ensure_sources_from policy seen [] = ok tt
ensure_sources_from policy seen (decision ∷ decisions) = do
  reject_if (set_contains decision.atom_id seen)
      (receipt_rejected "semantic candidate id occurs more than once")
  reject_if
      (ltb (length decision.source_ids) policy.min_semantic_sources
        || not (increasing decision.source_ids))
      (receipt_rejected "semantic candidate source closure is incomplete or unordered")
  ensure_sources_from policy (set_insert decision.atom_id seen) decisions

-- The loop over the pairs of neighbours.
unfoldable pub ensure_ranked : List SemanticCandidateDecision → Result (Unit {0})
ensure_ranked [] = ok tt
ensure_ranked (left ∷ []) = ok tt
ensure_ranked (left ∷ right ∷ decisions) = do
  reject_if
      (ltb left.score.total right.score.total
        || (left.score.total == right.score.total && leb right.atom_id left.atom_id))
      (receipt_rejected "semantic candidates are not ordered by score then atom id")
  ensure_ranked (right ∷ decisions)

unfoldable pub expected_semantic_disposition :
    ℕ → ℕ → ℕ → ℕ → Policy → Result (SemanticCandidateDisposition × ℕ)
expected_semantic_disposition candidate_bytes selected_count selected_bytes count_budget policy = do
  next_bytes ←
      ok_or (checked_add selected_bytes candidate_bytes)
        (receipt_rejected "semantic candidate byte count overflow")
  ok (
    if ltb policy.atom_hard_max_bytes candidate_bytes
        then skipped_atom_hard_limit
        else if leb count_budget selected_count
        then skipped_count_budget
        else if ltb policy.semantic_body_budget_bytes next_bytes
        then skipped_byte_budget
        else selected,
    next_bytes,
  )

abbrev pub semantic_payload : MemoryPayload → Result SemanticPayload
semantic_payload (MemoryPayload.semantic payload) = ok payload
semantic_payload (MemoryPayload.episode payload) =
    err (receipt_rejected "selected semantic candidate has episode payload")

-- A selected candidate against the semantic atom that stands for it.
unfoldable pub ensure_evidence :
    List PlannedSemanticAtom → ℕ → SemanticCandidateDecision → Result (Unit {0})
unfolding nats_eq ConsolidationScore-discrete
ensure_evidence semantic_atoms selected_index decision = do
  semantic ←
      ok_or (get_elem? semantic_atoms selected_index)
        (receipt_rejected "selected semantic candidate body is missing")
  payload ← semantic_payload semantic.body.payload
  reject_if
      (any_true (
        not (semantic.atom_id == decision.atom_id)
        ∷ not (semantic.canonical_size_bytes == decision.canonical_size_bytes)
        ∷ not (nats_eq payload.source_ids decision.source_ids)
        ∷ not (same ConsolidationScore-discrete payload.score decision.score)
        ∷ []))
      (receipt_rejected "selected semantic candidate does not match its evidence")

-- The loop over the dispositions, after so many selected and their bytes.
unfoldable pub ensure_dispositions_from :
    List PlannedSemanticAtom → ℕ → Policy → ℕ → ℕ → ℕ → List SemanticCandidateDecision → Result ℕ
ensure_dispositions_from semantic_atoms count_budget policy selected_count selected_bytes
      selected_index [] =
    ok selected_index
ensure_dispositions_from semantic_atoms count_budget policy selected_count selected_bytes
      selected_index (decision ∷ decisions) =
    do
      expected ←
          expected_semantic_disposition decision.canonical_size_bytes selected_count selected_bytes
            count_budget policy
      reject_if (not (same SemanticCandidateDisposition-discrete decision.disposition expected.0))
          (receipt_rejected "semantic candidate disposition does not follow policy budgets")
      elim (same SemanticCandidateDisposition-discrete expected.0 selected) [
        | false ↦
            ensure_dispositions_from semantic_atoms count_budget policy selected_count
              selected_bytes selected_index decisions
        | true ↦
            ensure_evidence semantic_atoms selected_index decision
            >> ensure_dispositions_from semantic_atoms count_budget policy
                (saturating_add selected_count 1) expected.1 (saturating_add selected_index 1)
                decisions
      ]

module _ (ext : Externals) where
  -- `ensure_semantic_atoms` stands for its loop, from no identifier.
  unfoldable pub ensure_semantic_evidence : RetirementPlan → Policy → Result (Unit {0})
  ensure_semantic_evidence plan policy = do
    ensure_semantic_from ext policy [] plan.semantic_atoms
    ensure_sources_from policy [] plan.semantic_decisions
    ensure_ranked plan.semantic_decisions
    selected_index ←
        ensure_dispositions_from plan.semantic_atoms plan.semantic_count_budget policy 0 0 0
          plan.semantic_decisions
    reject_if (not (selected_index == length plan.semantic_atoms))
        (receipt_rejected "semantic atom exists without selected candidate evidence")
