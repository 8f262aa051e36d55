-- ===== src/Receipt/Types.antt =====
-- crates/naome-memory-core/src/receipt.rs: receipts, what they close over, and what a store reports.
use naome_memory.Base.{ℕ, String, Bool, List}
use naome_memory.Atom.{Digest32, AtomId, Seed32}
use naome_memory.Policy.{Policy}
use naome_memory.Retirement.Types.{RetirementSnapshot}

pub data InvariantStatus : Type 0 where
  verified rejected inconclusive : InvariantStatus

pub data HypothesisStatus : Type 0 where
  supported rejected inconclusive : HypothesisStatus

pub data OverallProofStatus : Type 0 where
  passed failed inconclusive invalid : OverallProofStatus

pub record ReceiptClosure : Type 0 where
  pub source_atom_ids : List AtomId
  pub semantic_atom_ids : List AtomId
  pub exact_episode_ids : List AtomId
  pub exact_artifact_digests : List (AtomId × List Digest32)

-- What the identifier of a receipt binds.
pub record ReceiptAuthority : Type 0 where
  pub contract_version : String
  pub run_id : Digest32
  pub memory_space_id : String
  pub cohort_day : ℕ
  pub as_of_us : ℕ
  pub policy_id : String
  pub policy_digest : Digest32
  pub seed : Seed32
  pub input_set_digest : Digest32
  pub rng_identifier : String
  pub population_digest : Digest32
  pub episodic_population_count : ℕ
  pub episodic_winner_budget : ℕ
  pub episodic_winner_bytes : ℕ
  pub semantic_count_budget : ℕ
  pub semantic_body_bytes : ℕ
  pub plan_digest : Digest32
  pub decision_digest : Digest32
  pub state_digest : Digest32
  pub closure : ReceiptClosure
  pub invariants : List (String × InvariantStatus)
  pub overall_status : OverallProofStatus

-- A receipt: its identifier, and its other fields, which are those of its authority.
pub record ProofReceipt : Type 0 where
  pub receipt_id : Digest32
  pub authority : ReceiptAuthority
  pub open authority use *

pub record ApplyRetirementOutcome : Type 0 where
  pub observed_input_digest : Digest32
  pub state_digest : Digest32
  pub applied_decision_count : ℕ
  pub semantic_atom_ids : List AtomId
  pub episodic_atom_ids : List AtomId
  pub exact_artifact_digests : List (AtomId × List Digest32)
  pub already_applied : Bool

pub record ReceiptVerificationInputs : Type 0 where
  pub policy : Policy
  pub snapshot : RetirementSnapshot
  pub seed : Seed32
  pub observed_state_digest : Digest32
  pub observed_exact_artifact_digests : List (AtomId × List Digest32)

pub record VerifiedReceipt : Type 0 where
  pub receipt_id : Digest32
  pub run_id : Digest32
  pub plan_digest : Digest32
  pub status : InvariantStatus
