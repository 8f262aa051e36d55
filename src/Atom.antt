-- ===== src/Atom.antt =====
-- crates/naome-memory-core/src/model.rs: the atoms, their mutable state, and the candidates of a
-- retirement run.
--
-- An `AtomId` or `Seed32` is the digest that it wraps, a digest the number that its 32 bytes spell
-- big-endian (so that the derived byte order is the order of the numbers), a `BTreeSet` its elements
-- in order, and a `BTreeMap` its entries in the order of their keys.
use naome_memory.Base.{
  ℕ, String, Bool, true, false, List, Option, filterb, map, set_of, nat_ord, saturating_add,
}
use naome_memory.Fixed.{Ppm, ratio}

abbrev pub Digest32 : Type 0
Digest32 = ℕ

abbrev pub AtomId : Type 0
AtomId = Digest32

abbrev pub Seed32 : Type 0
Seed32 = Digest32

pub record MemoryScope : Type 0 where
  pub memory_space_id : String
  pub repository_id : Option String
  pub task_id : Option String
  pub agent_id : Option String
  pub session_id : String

pub record TimeInterval : Type 0 where
  pub started_at_us : ℕ
  pub ended_at_us : ℕ
  pub recorded_at_us : ℕ

pub data SealReason : Type 0 where
  goal_completed terminal_failure goal_changed context_changed checkpoint handoff timeout :
      SealReason

pub data RetentionPermission : Type 0 where
  transient_only semantic_allowed semantic_and_exact_allowed : RetentionPermission

pub record Observation : Type 0 where
  pub at_us : ℕ
  pub source : String
  pub content : String
  pub artifact_digest : Option Digest32

pub record Interpretation : Type 0 where
  pub content : String
  pub confidence : Ppm
  pub evidence : List Digest32

pub record Belief : Type 0 where
  pub proposition : String
  pub confidence : Ppm
  pub evidence : List Digest32

pub record DecisionRecord : Type 0 where
  pub decision : String
  pub rationale : String

pub record RejectedAlternative : Type 0 where
  pub alternative : String
  pub reason : String

pub record ActionRecord : Type 0 where
  pub action : String
  pub result : Option String

pub record Outcome : Type 0 where
  pub class : String
  pub summary : String
  pub succeeded : Bool

pub record FeedbackSignal : Type 0 where
  pub source : String
  pub positive : Bool
  pub note : Option String

pub record FormationSignals : Type 0 where
  pub utility : Ppm
  pub salience : Ppm
  pub novelty : Ppm
  pub uncertainty : Ppm

pub record Provenance : Type 0 where
  pub producer : String
  pub source_event_digests : List Digest32
  pub policy_digest : Digest32

pub data MemoryRelationKind : Type 0 where
  continues supports contradicts supersedes derived_from : MemoryRelationKind

pub record MemoryRelation : Type 0 where
  pub kind : MemoryRelationKind
  pub target : AtomId

pub record ArtifactRef : Type 0 where
  pub digest : Digest32
  pub size_bytes : ℕ
  pub media_type : String
  pub retention_allowed : Bool
  pub inline_payload : Option (List ℕ)

pub record EpisodePayload : Type 0 where
  pub event_sequence_start : ℕ
  pub event_sequence_end : ℕ
  pub continues : Option AtomId

pub record ConsolidationScore : Type 0 where
  pub support : Ppm
  pub diversity : Ppm
  pub utility : Ppm
  pub salience : Ppm
  pub cohesion : Ppm
  pub novelty : Ppm
  pub uncertainty : Ppm
  pub total : Ppm

pub record SemanticPayload : Type 0 where
  pub source_ids : List AtomId
  pub source_body_digests : List (AtomId × Digest32)
  pub score : ConsolidationScore
  pub consensus_numerator : ℕ
  pub consensus_denominator : ℕ
  pub supersedes : Option AtomId

pub data MemoryPayload : Type 0 where
  episode : EpisodePayload → MemoryPayload
  semantic : SemanticPayload → MemoryPayload

pub data MemoryKind : Type 0 where
  episode semantic : MemoryKind

pub record MemoryAtomBody : Type 0 where
  pub contract_version : String
  pub scope : MemoryScope
  pub interval : TimeInterval
  pub trigger : String
  pub seal_reason : SealReason
  pub goal : Option String
  pub plan : List String
  pub internal_state_before : List (String × String)
  pub internal_state_after : List (String × String)
  pub observations : List Observation
  pub interpretations : List Interpretation
  pub beliefs : List Belief
  pub decisions : List DecisionRecord
  pub rejected_alternatives : List RejectedAlternative
  pub actions : List ActionRecord
  pub outcome : Option Outcome
  pub feedback : List FeedbackSignal
  pub formation_signals : FormationSignals
  pub topic_keys : List String
  pub entity_ids : List String
  pub outcome_class : Option String
  pub goal_key : Option String
  pub provenance : Provenance
  pub relations : List MemoryRelation
  pub artifacts : List ArtifactRef
  pub retention_permission : RetentionPermission
  pub payload : MemoryPayload

pub data RetentionTier : Type 0 where
  short_term semantic_long_term episodic_long_term dual_long_term header_only : RetentionTier

pub data ContentStatus : Type 0 where
  present forgotten corrupt : ContentStatus

pub record AtomState : Type 0 where
  pub retention_tier : RetentionTier
  pub content_status : ContentStatus
  pub expires_at_us : Option ℕ
  pub superseded_by : Option AtomId
  pub feedback_positive : ℕ
  pub feedback_negative : ℕ
  pub retrieval_count : ℕ
  pub retirement_run_id : Option Digest32

pub data IntegrityStatus : Type 0 where
  complete missing_body missing_artifact digest_mismatch : IntegrityStatus

pub record RetirementCandidate : Type 0 where
  pub atom_id : AtomId
  pub body_digest : Digest32
  pub body : Option MemoryAtomBody
  pub state : AtomState
  pub integrity : IntegrityStatus
  pub exact_package_bytes : ℕ

abbrev pub kind_of_payload : MemoryPayload → MemoryKind
kind_of_payload (MemoryPayload.episode _) = MemoryKind.episode
kind_of_payload (MemoryPayload.semantic _) = MemoryKind.semantic

-- `MemoryAtomBodyV1::kind`
abbrev pub kind : MemoryAtomBody → MemoryKind
kind body = kind_of_payload body.payload

-- `MemoryAtomBodyV1::retained_artifact_digests`
unfoldable pub retained_artifact_digests : MemoryAtomBody → List Digest32
unfolding set_of
retained_artifact_digests body =
    set_of (map (λ a. a.digest) (filterb (λ a. a.retention_allowed) body.artifacts))

-- `AtomStateV1::validated_utility`
unfoldable pub validated_utility : AtomState → Ppm
unfolding ratio
validated_utility state =
    ratio (saturating_add state.feedback_positive 1)
      (saturating_add (saturating_add state.feedback_positive state.feedback_negative) 2)

abbrev pub is_episodic_tier : RetentionTier → Bool
is_episodic_tier RetentionTier.episodic_long_term = true
is_episodic_tier RetentionTier.dual_long_term = true
is_episodic_tier _ = false

-- `AtomStateV1::is_episodic_ltm`
abbrev pub is_episodic_ltm : AtomState → Bool
is_episodic_ltm state = is_episodic_tier state.retention_tier
