-- ===== src/Validation/Spec.antt =====
-- What a valid atom body is, said without the checks: the contract of
-- crates/naome-memory-core/src/validation.rs.
use naome_memory.Base.{
  ℕ, ◌+◌, ◌≤◌, ◌≡◌, ◌≢◌, List, [], Option, none, some, map, length, filter_map, All, Has,
  option_list, nat_ord, pair_ord, true,
}
use naome_memory.Base.Sets.{Distinct}
use naome_memory.Error.{ok}
use naome_memory.Policy.{Policy, poc_v1}
use naome_memory.Atom.{
  MemoryScope, MemoryAtomBody, ArtifactRef, Observation, MemoryPayload, EpisodePayload,
  SemanticPayload, RetentionPermission, transient_only, semantic_allowed,
  semantic_and_exact_allowed, continues, derived_from, supersedes,
}
use naome_memory.Externals.{Externals, hash_prefixed}
use naome_memory.Digests.{policy_digest, encoded_size_bytes, exact_package_bytes}
use naome_memory.Validation.{relation_keys, targets, increasing, maps_to}

pub record IsScope (scope : MemoryScope) : Type 0 where
  pub space : scope.memory_space_id ≢ ""
  pub session : scope.session_id ≢ ""
  pub repository : scope.repository_id ≢ some ""
  pub task : scope.task_id ≢ some ""
  pub agent : scope.agent_id ≢ some ""

module _ (ext : Externals) (policy : Policy) where
  -- An embedded payload is small and is the artifact that it claims to be.
  abbrev pub InlineCloses : ArtifactRef → Option (List ℕ) → Type 0
  InlineCloses artifact none = Unit
  InlineCloses artifact (some inline) =
      (length inline ≤ policy.inline_payload_max_bytes)
      × (length inline ≡ artifact.size_bytes)
      × (hash_prefixed ext [] inline ≡ artifact.digest)

  pub record IsArtifact (artifact : ArtifactRef) : Type 0 where
    pub typed : artifact.media_type ≢ ""
    pub bounded : artifact.size_bytes ≤ policy.artifact_max_bytes
    pub closes : InlineCloses artifact artifact.inline_payload

  pub record IsObservation (body : MemoryAtomBody) (o : Observation) : Type 0 where
    pub begun : body.interval.started_at_us ≤ o.at_us
    pub ended : o.at_us ≤ body.interval.ended_at_us
    pub sourced : o.source ≢ ""
    pub filled : o.content ≢ ""

  -- An episode: one distinct digest for each event, some content, and its link as its relations say.
  pub record IsEpisode (body : MemoryAtomBody) (payload : EpisodePayload) : Type 0 where
    pub ordered : payload.event_sequence_start ≤ payload.event_sequence_end
    pub counted :
        length body.provenance.source_event_digests + payload.event_sequence_start
        ≡ payload.event_sequence_end + 1
    pub events_distinct : Distinct body.provenance.source_event_digests
    pub substantive : ¬ (
        (body.observations ≡ [])
        × (body.decisions ≡ [])
        × (body.actions ≡ [])
        × (body.outcome ≡ none)
        × (body.feedback ≡ []))
    pub linked : targets continues body.relations ≡ option_list payload.continues

  -- A semantic atom: enough sources in order, and digests and relations that close over them.
  pub record IsSemantic (body : MemoryAtomBody) (payload : SemanticPayload) : Type 0 where
    pub permitted : body.retention_permission ≡ semantic_allowed
    pub no_observations : body.observations ≡ []
    pub no_actions : body.actions ≡ []
    pub no_artifacts : body.artifacts ≡ []
    pub no_outcome : body.outcome ≡ none
    pub enough : policy.min_semantic_sources ≤ length payload.source_ids
    pub sorted : increasing payload.source_ids ≡ true
    pub closed : All (λ s. maps_to payload.source_body_digests s s ≡ true) payload.source_ids
    pub sources_traced : body.provenance.source_event_digests ≡ payload.source_ids
    pub numerator : payload.consensus_numerator ≡ policy.consensus_numerator
    pub denominator : payload.consensus_denominator ≡ policy.consensus_denominator
    pub derived : targets derived_from body.relations ≡ payload.source_ids
    pub superseding : targets supersedes body.relations ≡ option_list payload.supersedes
    pub no_other :
        length body.relations
        ≡ length (targets derived_from body.relations) + length (targets supersedes body.relations)

  abbrev pub PayloadCloses : MemoryAtomBody → MemoryPayload → Type 0
  PayloadCloses body (MemoryPayload.episode payload) = IsEpisode body payload
  PayloadCloses body (MemoryPayload.semantic payload) = IsSemantic body payload

  -- A package that may be kept exactly is within its limit.
  abbrev pub ExactFits : MemoryAtomBody → RetentionPermission → Type 0
  ExactFits body transient_only = Unit
  ExactFits body semantic_allowed = Unit
  ExactFits body semantic_and_exact_allowed =
      (bytes : ℕ) × (exact_package_bytes ext body ≡ ok bytes)
      × (bytes ≤ policy.exact_package_max_bytes)

  pub record IsAtom (body : MemoryAtomBody) : Type 0 where
    pub committed : policy ≡ poc_v1
    pub version : body.contract_version ≡ "atom-v1"
    pub scoped : IsScope body.scope
    pub triggered : body.trigger ≢ ""
    pub produced : body.provenance.producer ≢ ""
    pub governed : policy_digest ext policy ≡ ok body.provenance.policy_digest
    pub started : body.interval.started_at_us ≤ body.interval.ended_at_us
    pub recorded : body.interval.ended_at_us ≤ body.interval.recorded_at_us
    pub observed : All (IsObservation body) body.observations
    pub artifacts : All IsArtifact body.artifacts
    pub artifacts_distinct : Distinct (map (λ a. a.digest) body.artifacts)
    pub declared :
        All
          (λ digest. Has digest (map (λ a. a.digest) body.artifacts))
          (filter_map (λ o. o.artifact_digest) body.observations)
    pub relations_distinct : Distinct (relation_keys body.relations)
    pub payload_closes : PayloadCloses body body.payload
    pub sized :
        (size : ℕ) × (encoded_size_bytes ext body ≡ ok size) × (size ≤ policy.atom_hard_max_bytes)
    pub exact_sized : ExactFits body body.retention_permission
