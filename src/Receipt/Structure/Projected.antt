-- ===== src/Receipt/Structure/Projected.antt =====
-- crates/naome-memory-core/src/receipt.rs: `verify_projected_post_state`.
use naome_memory.Base.{
  String, Bool, true, false, not, ◌&&◌, List, [], ◌∷◌, Option, none, some, length, ltb, ◌==◌,
  if◌then◌else◌, str_eq, str_empty, is_some, same, any_true, nat_ord, nats_eq, is_nil,
}
use naome_memory.Error.{Result, reject_if, each, ◌>>=◌, ◌>>◌, receipt_rejected}
use naome_memory.Policy.{Policy}
use naome_memory.Atom.{
  MemoryKind, RetentionPermission, semantic_and_exact_allowed, RetentionTier, episodic_long_term,
  header_only, semantic_long_term, ContentStatus, present, forgotten,
}
use naome_memory.Externals.{Externals}
use naome_memory.Seal.Input.{same_text}
use naome_memory.Seal.Episode.{same_id}
use naome_memory.Retirement.Types.{
  RetirementPlan, RetirementDecision, PlannedSemanticAtom, RetirementPostStateAtom,
}
use naome_memory.Retirement.PostState.{zip, provenance_digest}

unfoldable pub MemoryKind-discrete : Discrete MemoryKind
MemoryKind-discrete = hlevel

unfoldable pub RetentionTier-discrete : Discrete RetentionTier
RetentionTier-discrete = hlevel

unfoldable pub ContentStatus-discrete : Discrete ContentStatus
ContentStatus-discrete = hlevel

unfoldable pub RetentionPermission-discrete : Discrete RetentionPermission
RetentionPermission-discrete = hlevel

abbrev pub same_bool : Bool → Bool → Bool
same_bool true b = b
same_bool false b = not b

-- `option.as_deref().is_none_or(str::is_empty)`
abbrev pub none_or_empty : Option String → Bool
none_or_empty none = true
none_or_empty (some text) = str_empty text

-- What a post-state must not be, beside its decision.
unfoldable pub source_tests : Policy → RetirementPostStateAtom → RetirementDecision → List Bool
unfolding MemoryKind-discrete RetentionTier-discrete ContentStatus-discrete
    RetentionPermission-discrete nats_eq
source_tests policy state decision =
    let expected_tier = if decision.exact_retained then episodic_long_term else header_only in
    let expected_status = if decision.exact_retained then present else forgotten in
    not (state.atom_id == decision.atom_id)
    ∷ not (same MemoryKind-discrete state.atom_kind MemoryKind.episode)
    ∷ none_or_empty state.session_id
    ∷ not (state.header_body_digest == decision.atom_id)
    ∷ (state.header_body_bytes == 0)
    ∷ ltb policy.atom_hard_max_bytes state.header_body_bytes
    ∷ not (
        same_id state.stored_body_digest
          (if decision.exact_retained then some decision.atom_id else none))
    ∷ not (same RetentionTier-discrete state.retention_tier expected_tier)
    ∷ not (same ContentStatus-discrete state.content_status expected_status)
    ∷ is_some state.expires_at_us
    ∷ is_some state.superseded_by
    ∷ not state.retirement_run_bound
    ∷ not (same_bool state.search_projection_present decision.exact_retained)
    ∷ not (nats_eq state.pinned_artifact_digests decision.exact_artifact_digests)
    ∷ same_bool decision.forget_episode_body decision.exact_retained
    ∷ (decision.exact_retained
        && not (
            same RetentionPermission-discrete state.retention_permission
              semantic_and_exact_allowed))
    ∷ []

unfoldable pub ensure_source_state :
    Policy → RetirementPostStateAtom × RetirementDecision → Result (Unit {0})
unfolding source_tests
ensure_source_state policy (state, decision) =
    reject_if (any_true (source_tests policy state decision))
      (receipt_rejected "projected source post-state mismatch")

module _ (ext : Externals) where
  unfoldable pub ensure_semantic_state :
      RetirementPostStateAtom × PlannedSemanticAtom → Result (Unit {0})
  unfolding MemoryKind-discrete RetentionTier-discrete ContentStatus-discrete
      RetentionPermission-discrete
  ensure_semantic_state (state, semantic) = do
    reject_if
        (any_true (
          not (state.atom_id == semantic.atom_id)
          ∷ not (same MemoryKind-discrete state.atom_kind MemoryKind.semantic)
          ∷ not (same_text state.repository_id semantic.body.scope.repository_id)
          ∷ not (same_text state.task_id semantic.body.scope.task_id)
          ∷ not (same_text state.agent_id semantic.body.scope.agent_id)
          ∷ not (same_text state.session_id (some semantic.body.scope.session_id))
          ∷ not (state.recorded_at_us == semantic.body.interval.recorded_at_us)
          ∷ not (state.header_body_digest == semantic.body_digest)
          ∷ not (state.header_body_bytes == semantic.canonical_size_bytes)
          ∷ not (
              same RetentionPermission-discrete state.retention_permission
                semantic.body.retention_permission)
          ∷ []))
        (receipt_rejected "projected semantic post-state mismatch")
    digest ← provenance_digest ext semantic.body.provenance
    reject_if
        (any_true (
          not (state.provenance_digest == digest)
          ∷ not (same_id state.stored_body_digest (some semantic.body_digest))
          ∷ not (same RetentionTier-discrete state.retention_tier semantic_long_term)
          ∷ not (same ContentStatus-discrete state.content_status present)
          ∷ is_some state.expires_at_us
          ∷ is_some state.superseded_by
          ∷ not (state.feedback_positive == 0)
          ∷ not (state.feedback_negative == 0)
          ∷ not (state.retrieval_count == 0)
          ∷ state.retirement_run_bound
          ∷ not state.search_projection_present
          ∷ not (is_nil state.pinned_artifact_digests)
          ∷ []))
        (receipt_rejected "projected semantic post-state mismatch")

  unfoldable pub verify_projected_post_state : RetirementPlan → Policy → Result (Unit {0})
  verify_projected_post_state plan policy = do
    reject_if
        (any_true (
          not (str_eq plan.projected_post_state.memory_space_id plan.memory_space_id)
          ∷ not (length plan.projected_post_state.source_atoms == length plan.decisions)
          ∷ not (length plan.projected_post_state.semantic_atoms == length plan.semantic_atoms)
          ∷ []))
        (receipt_rejected "projected post-state closure mismatch")
    each (ensure_source_state policy) (zip plan.projected_post_state.source_atoms plan.decisions)
    each ensure_semantic_state (zip plan.projected_post_state.semantic_atoms plan.semantic_atoms)
