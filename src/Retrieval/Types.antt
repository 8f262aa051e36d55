-- ===== src/Retrieval/Types.antt =====
-- crates/naome-memory-core/src/retrieval.rs: a query, its candidates and its result.
use naome_memory.Base.{ℕ, String, Bool, List, Option}
use naome_memory.Fixed.{Ppm}
use naome_memory.Atom.{Digest32, AtomId, Seed32, MemoryAtomBody, AtomState, IntegrityStatus}

pub record SpontaneousRecallRequest : Type 0 where
  pub seed : Seed32
  pub budget : ℕ

pub record RetrievalQuery : Type 0 where
  pub contract_version : String
  pub memory_space_id : String
  pub repository_id : Option String
  pub memory_space_wide : Bool
  pub as_of_us : ℕ
  pub terms : List String
  pub topic_keys : List String
  pub entity_ids : List String
  pub k : Option ℕ
  pub spontaneous : Option SpontaneousRecallRequest

pub record RetrievalCandidate : Type 0 where
  pub atom_id : AtomId
  pub body : MemoryAtomBody
  pub state : AtomState
  pub lexical_score : Ppm
  pub integrity : IntegrityStatus

pub record RetrievalCandidates : Type 0 where
  pub ranked : List RetrievalCandidate
  pub episodic_pool : List RetrievalCandidate

pub record RetrievalScore : Type 0 where
  pub lexical : Ppm
  pub semantic : Ppm
  pub entity : Ppm
  pub validated_utility : Ppm
  pub recency : Ppm
  pub total : Ppm

pub data RecallReason : Type 0 where
  query_ranked spontaneous : RecallReason

pub data Generality : Type 0 where
  semantic single_episode : Generality

pub record RetrievalHit : Type 0 where
  pub atom_id : AtomId
  pub score : Option RetrievalScore
  pub recall_reason : RecallReason
  pub generality : Generality

pub record SpontaneousRecallResult : Type 0 where
  pub seed : Seed32
  pub budget : ℕ
  pub population_digest : Digest32
  pub population_count : ℕ
  pub hits : List RetrievalHit

pub record RetrievalResult : Type 0 where
  pub contract_version : String
  pub query_digest : Digest32
  pub hits : List RetrievalHit
  pub spontaneous : Option SpontaneousRecallResult
