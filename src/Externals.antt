-- ===== src/Externals.antt =====
-- What the crate calls and does not implement, as a record that the models take: SHA-256, the ChaCha20
-- stream of a seed, and serde's derived traversal of each type whose canonical bytes are hashed or
-- measured. Nothing is assumed of them here; a theorem that needs a law of one states it.
use naome_memory.Base.{ℕ, List, ◌++◌}
use naome_memory.Canonical.{Serialized}
use naome_memory.Policy.{Policy}
use naome_memory.Atom.{
  Digest32, AtomId, Seed32, MemoryAtomBody, Provenance, Observation, Interpretation, Belief,
  DecisionRecord, ActionRecord,
}
use naome_memory.Retirement.Types.{
  RetirementInputAuthority, RetirementPostState, RetirementPlan, RetirementDecision,
}
use naome_memory.Retrieval.Types.{RetrievalQuery}
use naome_memory.Seal.Types.{EpisodeEvent}
use naome_memory.Receipt.Types.{ReceiptAuthority}

pub record Externals : Type 0 where
  -- `Sha256` of a byte string
  pub sha256 : List ℕ → Digest32
  -- the n-th `next_u64` of `ChaCha20Rng::from_seed`
  pub next_u64 : Seed32 → ℕ → ℕ
  -- `serde_json::to_value`
  pub policy_value : Policy → Serialized
  pub body_value : MemoryAtomBody → Serialized
  pub provenance_value : Provenance → Serialized
  pub input_value : RetirementInputAuthority → Serialized
  pub population_value : List (AtomId × Digest32 × ℕ) → Serialized
  pub post_state_value : RetirementPostState → Serialized
  pub ids_value : List AtomId → Serialized
  pub query_value : RetrievalQuery → Serialized
  pub event_value : EpisodeEvent → Serialized
  pub digest_value : Digest32 → Serialized
  pub observation_value : Observation → Serialized
  pub interpretation_value : Interpretation → Serialized
  pub belief_value : Belief → Serialized
  pub decision_value : DecisionRecord → Serialized
  pub action_value : ActionRecord → Serialized
  pub plan_value : RetirementPlan → Serialized
  pub decisions_value : List RetirementDecision → Serialized
  pub receipt_value : ReceiptAuthority → Serialized

module _ (ext : Externals) where
  -- `Digest32::hash_prefixed`
  unfoldable pub hash_prefixed : List ℕ → List ℕ → Digest32
  hash_prefixed prefix payload = ext.sha256 (prefix ++ payload)
