-- ===== src/Validation.antt =====
-- crates/naome-memory-core/src/validation.rs: the validation of an immutable atom body, which every
-- sealing and typed persistence path uses.
--
-- `validate_memory_atom_body` is cut into its consecutive groups of checks, which it calls in order.
pub mod Spec
pub mod Parts
pub mod Sound
use naome_memory.Base.{
  ℕ, zero, suc, ◌+◌, ◌-◌, String, Bool, true, false, not, ◌&&◌, ◌||◌, List, [], ◌∷◌, Option, none,
  some, map, length, ltb, leb, ◌==◌, if◌then◌else◌, str_eq, str_empty, anyb, allb, filterb,
  filter_map, is_nil, is_some, option_list, set_of, set_insert, set_contains, nat_ord, pair_ord,
  checked_sub, checked_add, nats_eq,
}
use naome_memory.Error.{
  Result, ok, err, reject_if, ok_or, each, ◌>>=◌, ◌>>◌, unknown_version, empty_field,
  policy_mismatch, invalid_time_interval, invalid_atom_body, undeclared_artifact_reference,
  atom_too_large, exact_package_too_large, insufficient_episode_content, artifact_too_large,
  inline_payload_too_large, artifact_digest_mismatch,
}
use naome_memory.Policy.{Policy, validate_poc_v1}
use naome_memory.Atom.{
  Digest32, MemoryScope, MemoryAtomBody, ArtifactRef, Observation, MemoryRelation,
  MemoryRelationKind, continues, supports, contradicts, supersedes, derived_from, MemoryPayload,
  EpisodePayload, SemanticPayload, RetentionPermission, transient_only, semantic_allowed,
  semantic_and_exact_allowed,
}
use naome_memory.Externals.{Externals, hash_prefixed}
use naome_memory.Digests.{policy_digest, encoded_size_bytes, exact_package_bytes}

unfoldable pub relation_kind_key : MemoryRelationKind → ℕ
relation_kind_key continues = 0
relation_kind_key supports = 1
relation_kind_key contradicts = 2
relation_kind_key supersedes = 3
relation_kind_key derived_from = 4

-- `relation.kind == kind`, on fieldless variants.
abbrev pub is_kind : MemoryRelationKind → MemoryRelation → Bool
unfolding relation_kind_key
is_kind kind relation = relation_kind_key relation.kind == relation_kind_key kind

-- What `relation_keys` collects.
abbrev pub relation_keys : List MemoryRelation → List (ℕ × ℕ)
relation_keys relations = map (λ r. (relation_kind_key r.kind, r.target)) relations

-- The targets of the relations of one kind, in order.
abbrev pub targets : MemoryRelationKind → List MemoryRelation → List ℕ
targets kind relations = map (λ r. r.target) (filterb (is_kind kind) relations)

abbrev pub blank : Option String → Bool
blank none = false
blank (some text) = str_empty text

unfoldable pub validate_scope : MemoryScope → Result (Unit {0})
validate_scope scope = do
  reject_if (str_empty scope.memory_space_id) (empty_field "memory_space_id")
  reject_if (str_empty scope.session_id) (empty_field "session_id")
  reject_if (blank scope.repository_id) (empty_field "repository_id")
  reject_if (blank scope.task_id) (empty_field "task_id")
  reject_if (blank scope.agent_id) (empty_field "agent_id")

abbrev pub exact_only : RetentionPermission → Bool
exact_only semantic_and_exact_allowed = true
exact_only _ = false

abbrev pub semantic_only : RetentionPermission → Bool
semantic_only semantic_allowed = true
semantic_only _ = false

-- `payload.source_ids.windows(2).all(|pair| pair[0] < pair[1])`
unfoldable pub increasing : List ℕ → Bool
increasing [] = true
increasing (x ∷ []) = true
increasing (x ∷ y ∷ rest) = ltb x y && increasing (y ∷ rest)

-- `map.get(&key) == Some(&value)`
unfoldable pub maps_to : List (ℕ × ℕ) → ℕ → ℕ → Bool
maps_to [] key value = false
maps_to ((k, v) ∷ entries) key value = if k == key then v == value else maps_to entries key value

abbrev pub outcome_disagrees : MemoryAtomBody → Bool
outcome_disagrees body = elim body.outcome [
  | none ↦ false
  | some outcome ↦ elim body.outcome_class [
    | none ↦ false
    | some outcome_class ↦ not (str_eq outcome.class outcome_class)
  ]
]

-- Whether a semantic body holds a field that only episodes may hold.
abbrev pub has_episode_content : MemoryAtomBody → Bool
has_episode_content body =
    not (is_nil body.observations)
    || (not (is_nil body.interpretations)
        || (not (is_nil body.beliefs)
            || (not (is_nil body.decisions)
                || (not (is_nil body.rejected_alternatives)
                    || (not (is_nil body.actions)
                        || (is_some body.outcome
                            || (not (is_nil body.feedback) || not (is_nil body.artifacts))))))))

module _ (ext : Externals) (policy : Policy) where
  -- One turn of the loop of `validate_artifacts`, on the check of the inline payload.
  unfoldable pub validate_inline : ArtifactRef → List ℕ → Result (Unit {0})
  unfolding hash_prefixed
  validate_inline artifact inline = do
    reject_if (ltb policy.inline_payload_max_bytes (length inline))
        (inline_payload_too_large (length inline) policy.inline_payload_max_bytes)
    reject_if
        (not (length inline == artifact.size_bytes)
          || not (hash_prefixed ext [] inline == artifact.digest))
        (artifact_digest_mismatch artifact.digest)

  -- `if let Some(inline) = &artifact.inline_payload`
  unfoldable pub validate_inline_payload : ArtifactRef → Option (List ℕ) → Result (Unit {0})
  unfolding validate_inline
  validate_inline_payload artifact none = ok tt
  validate_inline_payload artifact (some inline) = validate_inline artifact inline

  unfoldable pub validate_artifact : ArtifactRef → Result (Unit {0})
  unfolding validate_inline_payload
  validate_artifact artifact = do
    reject_if (str_empty artifact.media_type) (empty_field "artifact.media_type")
    reject_if (ltb policy.artifact_max_bytes artifact.size_bytes)
        (artifact_too_large artifact.size_bytes policy.artifact_max_bytes)
    validate_inline_payload artifact artifact.inline_payload

  -- The loop of `validate_artifacts`, on the digests seen so far.
  unfoldable pub validate_artifacts_from : List Digest32 → List ArtifactRef → Result (Unit {0})
  unfolding validate_artifact set_insert
  validate_artifacts_from digests [] = ok tt
  validate_artifacts_from digests (artifact ∷ artifacts) = do
    reject_if (set_contains artifact.digest digests)
        (invalid_atom_body "artifact digests must be unique within an atom")
    validate_artifact artifact
    validate_artifacts_from (set_insert artifact.digest digests) artifacts

  unfoldable pub validate_artifacts : List ArtifactRef → Result (Unit {0})
  unfolding validate_artifacts_from
  validate_artifacts = validate_artifacts_from []

  -- The checks of the version, the scope, the required texts, the policy and the interval.
  unfoldable pub validate_header : MemoryAtomBody → Result (Unit {0})
  unfolding validate_scope policy_digest
  validate_header body = do
    reject_if (not (str_eq body.contract_version "atom-v1")) (unknown_version body.contract_version)
    validate_scope body.scope
    reject_if (str_empty body.trigger) (empty_field "trigger")
    reject_if (str_empty body.provenance.producer) (empty_field "provenance.producer")
    digest ← policy_digest ext policy
    reject_if (not (body.provenance.policy_digest == digest)) policy_mismatch
    reject_if
        (ltb body.interval.ended_at_us body.interval.started_at_us
          || ltb body.interval.recorded_at_us body.interval.ended_at_us)
        invalid_time_interval

  unfoldable pub validate_observations : MemoryAtomBody → Result (Unit {0})
  validate_observations body = do
    reject_if
        (anyb
          (λ o. ltb o.at_us body.interval.started_at_us || ltb body.interval.ended_at_us o.at_us)
          body.observations)
        (invalid_atom_body "observation time lies outside the atom interval")
    reject_if (anyb (λ o. str_empty o.source || str_empty o.content) body.observations)
        (invalid_atom_body "observation source and content must not be empty")
    reject_if (outcome_disagrees body)
        (invalid_atom_body "outcome_class does not match the episode outcome")

  -- The checks of the artifacts, of the references to them, and of the relations.
  unfoldable pub validate_links : MemoryAtomBody → Result (Unit {0})
  unfolding validate_artifacts each set_of relation_kind_key
  validate_links body = do
    validate_artifacts body.artifacts
    each
        (λ digest.
          reject_if (not (set_contains digest (set_of (map (λ a. a.digest) body.artifacts))))
            (undeclared_artifact_reference digest))
        (filter_map (λ o. o.artifact_digest) body.observations)
    reject_if (not (length (set_of (relation_keys body.relations)) == length body.relations))
        (invalid_atom_body "relations must be unique by kind and target")

  unfoldable pub validate_episode_body : MemoryAtomBody → EpisodePayload → Result (Unit {0})
  unfolding set_of
  validate_episode_body body payload = do
    reject_if (ltb payload.event_sequence_end payload.event_sequence_start)
        (invalid_atom_body "episode event sequence is inverted")
    event_count ←
        ok_or (checked_add (payload.event_sequence_end - payload.event_sequence_start) 1)
          (invalid_atom_body "episode event sequence count overflows u64")
    reject_if (not (length body.provenance.source_event_digests == event_count))
        (invalid_atom_body "episode provenance must contain one digest per event")
    reject_if
        (not (
          length (set_of body.provenance.source_event_digests)
          == length body.provenance.source_event_digests))
        (invalid_atom_body "episode source event digests must be unique")
    reject_if
        (is_nil body.observations
          && (is_nil body.decisions
              && (is_nil body.actions && (not (is_some body.outcome) && is_nil body.feedback))))
        insufficient_episode_content
    reject_if (not (nats_eq (targets continues body.relations) (option_list payload.continues)))
        (invalid_atom_body "episode payload and continues relation must match exactly")

  unfoldable pub validate_semantic_body : MemoryAtomBody → SemanticPayload → Result (Unit {0})
  unfolding increasing maps_to
  validate_semantic_body body payload = do
    reject_if (not (semantic_only body.retention_permission))
        (invalid_atom_body "semantic atoms require semantic_allowed retention")
    reject_if (has_episode_content body) (
        invalid_atom_body
          "semantic atoms may contain only deterministic structured consolidation fields")
    reject_if (ltb (length payload.source_ids) policy.min_semantic_sources)
        (invalid_atom_body "semantic atom has too few sources")
    reject_if (not (increasing payload.source_ids))
        (invalid_atom_body "semantic source IDs must be unique and sorted")
    reject_if
        (not (length payload.source_body_digests == length payload.source_ids)
          || anyb (λ source. not (maps_to payload.source_body_digests source source))
              payload.source_ids)
        (invalid_atom_body "semantic source body digest closure is incomplete")
    reject_if (not (nats_eq body.provenance.source_event_digests payload.source_ids))
        (invalid_atom_body "semantic provenance digest order does not match source IDs")
    reject_if
        (not (payload.consensus_numerator == policy.consensus_numerator)
          || not (payload.consensus_denominator == policy.consensus_denominator))
        (invalid_atom_body "semantic consensus ratio does not match policy")
    reject_if (not (nats_eq (targets derived_from body.relations) payload.source_ids))
        (invalid_atom_body "semantic DerivedFrom relations do not match source IDs")
    reject_if
        (not (nats_eq (targets supersedes body.relations) (option_list payload.supersedes))
          || not (
              length body.relations
              == length (targets derived_from body.relations)
                + length (targets supersedes body.relations)))
        (invalid_atom_body
          "semantic relations must be exactly DerivedFrom plus optional Supersedes")

  unfoldable pub validate_payload : MemoryAtomBody → MemoryPayload → Result (Unit {0})
  unfolding validate_episode_body validate_semantic_body
  validate_payload body (MemoryPayload.episode payload) = validate_episode_body body payload
  validate_payload body (MemoryPayload.semantic payload) = validate_semantic_body body payload

  unfoldable pub validate_exact : MemoryAtomBody → Result (Unit {0})
  unfolding exact_package_bytes
  validate_exact body = do
    reject_if (anyb (λ a. is_some a.inline_payload && not a.retention_allowed) body.artifacts) (
        invalid_atom_body "exact-eligible atoms cannot embed a retention-disallowed inline payload")
    bytes ← exact_package_bytes ext body
    reject_if (ltb policy.exact_package_max_bytes bytes)
        (exact_package_too_large bytes policy.exact_package_max_bytes)

  -- The checks of the sizes.
  unfoldable pub validate_sizes : MemoryAtomBody → Result (Unit {0})
  unfolding encoded_size_bytes validate_exact
  validate_sizes body = do
    size ← encoded_size_bytes ext body
    reject_if (ltb policy.atom_hard_max_bytes size) (atom_too_large size policy.atom_hard_max_bytes)
    if exact_only body.retention_permission then validate_exact body else ok tt

  unfoldable pub validate_memory_atom_body : MemoryAtomBody → Result (Unit {0})
  unfolding validate_poc_v1 validate_header validate_observations validate_links validate_payload
      validate_sizes
  validate_memory_atom_body body = do
    validate_poc_v1 policy
    validate_header body
    validate_observations body
    validate_links body
    validate_payload body body.payload
    validate_sizes body
