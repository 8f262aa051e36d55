-- ===== src/Retirement/PostState.antt =====
-- crates/naome-memory-core/src/retirement.rs: the state that a plan projects.
use naome_memory.Base.{ℕ, String, true, false, List, [], ◌∷◌, none, some, length, if◌then◌else◌}
use naome_memory.Error.{Result, ok, ok_or, traverse, ◌>>=◌, atom_digest_mismatch}
use naome_memory.Canonical.{canonical_binary}
use naome_memory.Atom.{
  Digest32, MemoryAtomBody, Provenance, RetirementCandidate, MemoryKind, episodic_long_term,
  header_only, semantic_long_term, present, forgotten,
}
use naome_memory.Externals.{Externals, hash_prefixed}
use naome_memory.Digests.{domain, body_bytes}
use naome_memory.Retirement.Types.{
  RetirementDecision, PlannedSemanticAtom, RetirementPostStateAtom, RetirementPostState,
}

-- `zip`
abbrev pub zip {ℓ κ} : {A : Type ℓ} {B : Type κ} → List A → List B → List (A × B)
zip [] ys = []
zip (x ∷ xs) [] = []
zip (x ∷ xs) (y ∷ ys) = (x, y) ∷ zip xs ys

-- A source atom after the plan: whole if it is retained exactly, and else its header.
abbrev pub source_after :
    RetirementCandidate
    → RetirementDecision
    → MemoryAtomBody
    → ℕ
    → Digest32
    → RetirementPostStateAtom
source_after candidate decision body header_body_bytes provenance_digest = record {
  atom_id = candidate.atom_id;
  atom_kind = MemoryKind.episode;
  repository_id = body.scope.repository_id;
  task_id = body.scope.task_id;
  agent_id = body.scope.agent_id;
  session_id = some body.scope.session_id;
  recorded_at_us = body.interval.recorded_at_us;
  header_body_digest = candidate.body_digest;
  header_body_bytes = header_body_bytes;
  retention_permission = body.retention_permission;
  provenance_digest = provenance_digest;
  stored_body_digest = if decision.exact_retained then some candidate.body_digest else none;
  retention_tier = if decision.exact_retained then episodic_long_term else header_only;
  content_status = if decision.exact_retained then present else forgotten;
  expires_at_us = none;
  superseded_by = none;
  feedback_positive = candidate.state.feedback_positive;
  feedback_negative = candidate.state.feedback_negative;
  retrieval_count = candidate.state.retrieval_count;
  retirement_run_bound = true;
  search_projection_present = decision.exact_retained;
  pinned_artifact_digests = decision.exact_artifact_digests;
}

abbrev pub semantic_after : PlannedSemanticAtom → Digest32 → RetirementPostStateAtom
semantic_after semantic provenance_digest = record {
  atom_id = semantic.atom_id;
  atom_kind = MemoryKind.semantic;
  repository_id = semantic.body.scope.repository_id;
  task_id = semantic.body.scope.task_id;
  agent_id = semantic.body.scope.agent_id;
  session_id = some semantic.body.scope.session_id;
  recorded_at_us = semantic.body.interval.recorded_at_us;
  header_body_digest = semantic.body_digest;
  header_body_bytes = semantic.canonical_size_bytes;
  retention_permission = semantic.body.retention_permission;
  provenance_digest = provenance_digest;
  stored_body_digest = some semantic.body_digest;
  retention_tier = semantic_long_term;
  content_status = present;
  expires_at_us = none;
  superseded_by = none;
  feedback_positive = 0;
  feedback_negative = 0;
  retrieval_count = 0;
  retirement_run_bound = false;
  search_projection_present = true;
  pinned_artifact_digests = [];
}

module _ (ext : Externals) where
  unfoldable pub provenance_digest : Provenance → Result Digest32
  unfolding hash_prefixed
  provenance_digest provenance = do
    bytes ← canonical_binary (ext.provenance_value provenance)
    ok (hash_prefixed ext (domain "naome-memory:provenance:v1") bytes)

  unfoldable pub project_source :
      RetirementCandidate × RetirementDecision → Result RetirementPostStateAtom
  unfolding body_bytes provenance_digest
  project_source (candidate, decision) = do
    body ← ok_or candidate.body (atom_digest_mismatch candidate.atom_id)
    bytes ← body_bytes ext body
    digest ← provenance_digest body.provenance
    ok (source_after candidate decision body (length bytes) digest)

  unfoldable pub project_semantic : PlannedSemanticAtom → Result RetirementPostStateAtom
  unfolding provenance_digest
  project_semantic semantic = do
    digest ← provenance_digest semantic.body.provenance
    ok (semantic_after semantic digest)

  unfoldable pub projected_post_state :
      String
      → List RetirementCandidate
      → List RetirementDecision
      → List PlannedSemanticAtom
      → Result RetirementPostState
  unfolding traverse project_source project_semantic
  projected_post_state memory_space_id candidates decisions semantic_atoms = do
    sources ← traverse project_source (zip candidates decisions)
    semantics ← traverse project_semantic semantic_atoms
    ok (record {
      memory_space_id = memory_space_id;
      source_atoms = sources;
      semantic_atoms = semantics;
    })

  -- `RetirementPostStateV1::digest`
  unfoldable pub post_state_digest : RetirementPostState → Result Digest32
  unfolding hash_prefixed
  post_state_digest state = do
    bytes ← canonical_binary (ext.post_state_value state)
    ok (hash_prefixed ext (domain "naome-memory:projected-state:v1") bytes)
