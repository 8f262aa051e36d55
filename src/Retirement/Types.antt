-- ===== src/Retirement/Types.antt =====
-- crates/naome-memory-core/src/retirement.rs: the snapshot of a cohort, and the plan that retires it.
use naome_memory.Base.{ℕ, String, Bool, List, Option}
use naome_memory.Atom.{
  Digest32, AtomId, Seed32, RetirementCandidate, MemoryAtomBody, ConsolidationScore, MemoryKind,
  RetentionPermission, RetentionTier, ContentStatus, AtomState, IntegrityStatus,
}

pub record RetirementSnapshot : Type 0 where
  pub contract_version : String
  pub memory_space_id : String
  pub cohort_day : ℕ
  pub as_of_us : ℕ
  pub atoms : List RetirementCandidate

pub record PlannedSemanticAtom : Type 0 where
  pub atom_id : AtomId
  pub body_digest : Digest32
  pub canonical_size_bytes : ℕ
  pub body : MemoryAtomBody

pub data SemanticCandidateDisposition : Type 0 where
  selected skipped_atom_hard_limit skipped_count_budget skipped_byte_budget :
      SemanticCandidateDisposition

pub record SemanticCandidateDecision : Type 0 where
  pub atom_id : AtomId
  pub source_ids : List AtomId
  pub score : ConsolidationScore
  pub canonical_size_bytes : ℕ
  pub disposition : SemanticCandidateDisposition

pub record RetirementDecision : Type 0 where
  pub atom_id : AtomId
  pub semantic_atom_ids : List AtomId
  pub exact_retained : Bool
  pub exact_artifact_digests : List Digest32
  pub forget_episode_body : Bool

pub record RetirementPostStateAtom : Type 0 where
  pub atom_id : AtomId
  pub atom_kind : MemoryKind
  pub repository_id : Option String
  pub task_id : Option String
  pub agent_id : Option String
  pub session_id : Option String
  pub recorded_at_us : ℕ
  pub header_body_digest : Digest32
  pub header_body_bytes : ℕ
  pub retention_permission : RetentionPermission
  pub provenance_digest : Digest32
  pub stored_body_digest : Option Digest32
  pub retention_tier : RetentionTier
  pub content_status : ContentStatus
  pub expires_at_us : Option ℕ
  pub superseded_by : Option AtomId
  pub feedback_positive : ℕ
  pub feedback_negative : ℕ
  pub retrieval_count : ℕ
  pub retirement_run_bound : Bool
  pub search_projection_present : Bool
  pub pinned_artifact_digests : List Digest32

pub record RetirementPostState : Type 0 where
  pub memory_space_id : String
  pub source_atoms : List RetirementPostStateAtom
  pub semantic_atoms : List RetirementPostStateAtom

pub record RetirementPlan : Type 0 where
  pub contract_version : String
  pub policy_id : String
  pub policy_digest : Digest32
  pub seed : Seed32
  pub memory_space_id : String
  pub cohort_day : ℕ
  pub as_of_us : ℕ
  pub input_set_digest : Digest32
  pub rng_identifier : String
  pub episodic_population_digest : Digest32
  pub episodic_population_count : ℕ
  pub episodic_winner_budget : ℕ
  pub episodic_winner_bytes : ℕ
  pub semantic_count_budget : ℕ
  pub semantic_body_bytes : ℕ
  pub semantic_decisions : List SemanticCandidateDecision
  pub semantic_atoms : List PlannedSemanticAtom
  pub episodic_winners : List AtomId
  pub decisions : List RetirementDecision
  pub projected_post_state : RetirementPostState
  pub projected_state_digest : Digest32

-- What the digest of the input set binds of one candidate, and of the set.
pub record RetirementInputCandidateRef : Type 0 where
  pub atom_id : AtomId
  pub body_digest : Digest32
  pub state : AtomState
  pub integrity : IntegrityStatus
  pub exact_package_bytes : ℕ

pub record RetirementInputAuthority : Type 0 where
  pub contract_version : String
  pub memory_space_id : String
  pub cohort_day : ℕ
  pub as_of_us : ℕ
  pub atoms : List RetirementInputCandidateRef
