-- ===== src/Seal/Types.antt =====
-- crates/naome-memory-core/src/seal.rs: the buffered events of an episode, and its sealed atoms.
use naome_memory.Base.{ℕ, String, Bool, List, Option}
use naome_memory.Atom.{
  AtomId, MemoryScope, Observation, Interpretation, Belief, DecisionRecord, ActionRecord,
  SealReason, RejectedAlternative, Outcome, FeedbackSignal, FormationSignals, RetentionPermission,
  ArtifactRef, MemoryRelation, MemoryAtomBody,
}

pub record EpisodeEvent : Type 0 where
  pub sequence : ℕ
  pub at_us : ℕ
  pub scope : MemoryScope
  pub observation : Option Observation
  pub interpretation : Option Interpretation
  pub belief : Option Belief
  pub decision : Option DecisionRecord
  pub action : Option ActionRecord

pub record EpisodeBuffer : Type 0 where
  pub scope : MemoryScope
  pub started_at_us : ℕ
  pub events : List EpisodeEvent
  pub continues : Option AtomId

pub record SealEpisodeRequest : Type 0 where
  pub as_of_us : ℕ
  pub ended_at_us : ℕ
  pub trigger : String
  pub seal_reason : SealReason
  pub goal : Option String
  pub plan : List String
  pub internal_state_before : List (String × String)
  pub internal_state_after : List (String × String)
  pub rejected_alternatives : List RejectedAlternative
  pub outcome : Option Outcome
  pub feedback : List FeedbackSignal
  pub formation_signals : FormationSignals
  pub topic_keys : List String
  pub entity_ids : List String
  pub outcome_class : Option String
  pub goal_key : Option String
  pub retention_permission : RetentionPermission
  pub artifacts : List ArtifactRef
  pub relations : List MemoryRelation

pub record SealedEpisode : Type 0 where
  pub atom_id : AtomId
  pub body : MemoryAtomBody
  pub canonical_size_bytes : ℕ
  pub target_size_exceeded : Bool

pub record SealedEpisodeChain : Type 0 where
  pub contract_version : String
  pub source_event_count : ℕ
  pub episodes : List SealedEpisode
