-- ===== src/Validation/Sound.antt =====
-- The checks of crates/naome-memory-core/src/validation.rs against Validation/Spec.antt.
use naome_memory.Base.{
  ℕ, ◌+◌, ◌-◌, ◌≤◌, ◌≡◌, ◌≢◌, sym, ap, ◌∙◌, ◌&&◌, List, [], ◌∷◌, none, some, map, if◌then◌else◌,
  length, All, Has, arith, true, false, not, ◌||◌, str_empty, str_eq, str_eq_iff, ||_false, ltb,
  anyb, anyb-false, All-map, set_contains, nat_ord, pair_ord, set_of, length-map, filter_map,
  nats_eq, nats_eq→eq, option_list, ◌==◌, is_nil, is_some, checked_add, not-false,
}
use naome_memory.Base.Sets.{Distinct, Distinct-of_length, set_contains-set_of}
use naome_memory.Error.{
  ok, ok_or, reject_if-eq-ok, reject_if-last, >>-eq-ok, >>=-eq-ok, each, each-All,
}
use naome_memory.Policy.{Policy, validate_poc_v1, validate_poc_v1-eq-ok}
use naome_memory.Atom.{
  Digest32, MemoryAtomBody, EpisodePayload, SemanticPayload, MemoryPayload, transient_only,
  semantic_and_exact_allowed, continues, derived_from, supersedes, semantic_allowed,
  RetentionPermission,
}
use naome_memory.Externals.{Externals}
use naome_memory.Digests.{policy_digest, encoded_size_bytes, exact_package_bytes}
use naome_memory.Validation.{
  exact_only, relation_kind_key, validate_scope, validate_artifacts, validate_header,
  validate_observations, validate_links, validate_episode_body, validate_semantic_body,
  validate_payload, validate_exact, validate_sizes, validate_memory_atom_body, relation_keys,
  targets, semantic_only, has_episode_content, increasing, maps_to,
}
use naome_memory.Validation.Spec.{
  IsScope, IsArtifact, IsEpisode, IsSemantic, PayloadCloses, ExactFits, IsAtom,
}
use naome_memory.Validation.Parts.{
  not_empty, validate_scope-IsScope, artifacts_from-All, observations-All,
}

not_eq : (a b : ℕ) → not (a == b) ≡ false → a ≡ b
not_eq a b h = ground arith

same_list : (xs ys : List ℕ) → not (nats_eq xs ys) ≡ false → xs ≡ ys
same_list xs ys h = nats_eq→eq xs ys (not-false (nats_eq xs ys) h)

some_eq : {a b : ℕ} → some a ≡ some b → a ≡ b
some_eq {a} e = ap (λ o. elim o [ none ↦ a | some x ↦ x ]) e

contains-Has : (digest : ℕ) (xs : List ℕ) → set_contains digest xs ≡ true → Has digest xs
contains-Has digest [] h = cc
contains-Has digest (x ∷ xs) h = ground (arith, contains-Has digest xs)

-- Each reference of an observation is found among the digests.
module _ (ext : Externals) (policy : Policy) (body : MemoryAtomBody) where
  validate_episode_body-IsEpisode :
      (payload : EpisodePayload)
      → validate_episode_body ext policy body payload ≡ ok tt
      → IsEpisode ext policy body payload
  unfolding validate_episode_body
  validate_episode_body-IsEpisode payload h =
      let (a, h₁) =
        reject_if-eq-ok (ltb payload.event_sequence_end payload.event_sequence_start) _ _ h in
      let (count, c, h₂) =
        >>=-eq-ok
          (ok_or (checked_add (payload.event_sequence_end - payload.event_sequence_start) 1) _) _
          h₁ in
      let (d, h₃) =
        reject_if-eq-ok (not (length body.provenance.source_event_digests == count)) _ _ h₂ in
      let (e, h₄) =
        reject_if-eq-ok
          (not (
            length (set_of body.provenance.source_event_digests)
            == length body.provenance.source_event_digests))
          _ _ h₃ in
      let (f, h₅) =
        reject_if-eq-ok
          (is_nil body.observations
            && (is_nil body.decisions
                && (is_nil body.actions && (not (is_some body.outcome) && is_nil body.feedback))))
          _ _ h₄ in
      let g =
        reject_if-last
          (not (nats_eq (targets continues body.relations) (option_list payload.continues))) _ h₅ in
      record {
        ordered = ground arith;
        counted = ground arith;
        events_distinct = Distinct-of_length body.provenance.source_event_digests (not_eq _ _ e);
        substantive = λ (o, d', a', u, f'). cc;
        linked = same_list _ _ g;
      }

  validate_semantic_body-IsSemantic :
      (payload : SemanticPayload)
      → validate_semantic_body ext policy body payload ≡ ok tt
      → IsSemantic ext policy body payload
  unfolding validate_semantic_body
  validate_semantic_body-IsSemantic payload h =
      let (a, h₁) = reject_if-eq-ok (not (semantic_only body.retention_permission)) _ _ h in
      let (b, h₂) = reject_if-eq-ok (has_episode_content body) _ _ h₁ in
      let (c, h₃) =
        reject_if-eq-ok (ltb (length payload.source_ids) policy.min_semantic_sources) _ _ h₂ in
      let (d, h₄) = reject_if-eq-ok (not (increasing payload.source_ids)) _ _ h₃ in
      let (e, h₅) =
        reject_if-eq-ok
          (not (length payload.source_body_digests == length payload.source_ids)
            || anyb (λ source. not (maps_to payload.source_body_digests source source))
                payload.source_ids)
          _ _ h₄ in
      let (f, h₆) =
        reject_if-eq-ok (not (nats_eq body.provenance.source_event_digests payload.source_ids)) _ _
          h₅ in
      let (g, h₇) =
        reject_if-eq-ok
          (not (payload.consensus_numerator == policy.consensus_numerator)
            || not (payload.consensus_denominator == policy.consensus_denominator))
          _ _ h₆ in
      let (k, h₈) =
        reject_if-eq-ok (not (nats_eq (targets derived_from body.relations) payload.source_ids)) _ _
          h₇ in
      let l =
        reject_if-last
          (not (nats_eq (targets supersedes body.relations) (option_list payload.supersedes))
            || not (
                length body.relations
                == length (targets derived_from body.relations)
                  + length (targets supersedes body.relations)))
          _ h₈ in
      let closed =
        anyb-false (λ source. not (maps_to payload.source_body_digests source source))
          payload.source_ids
          (||_false (not (length payload.source_body_digests == length payload.source_ids))
            (anyb (λ source. not (maps_to payload.source_body_digests source source))
              payload.source_ids)
            e).1 in
      record {
        permitted = ground arith;
        no_observations = ground arith;
        no_actions = ground arith;
        no_artifacts = ground arith;
        no_outcome = ground arith;
        enough = ground arith;
        sorted = not-false _ d;
        closed =
            All-map _ _ payload.source_ids
              (λ s. not-false (maps_to payload.source_body_digests s s)) closed;
        sources_traced = same_list _ _ f;
        numerator = not_eq _ _ (||_false _ _ g).0;
        denominator = not_eq _ _ (||_false _ _ g).1;
        derived = same_list _ _ k;
        superseding = same_list _ _ (||_false _ _ l).0;
        no_other = not_eq _ _ (||_false _ _ l).1;
      }

  payload-PayloadCloses :
      (payload : MemoryPayload)
      → validate_payload ext policy body payload ≡ ok tt
      → PayloadCloses ext policy body payload
  unfolding validate_payload
  payload-PayloadCloses (MemoryPayload.episode payload) h =
      validate_episode_body-IsEpisode payload h
  payload-PayloadCloses (MemoryPayload.semantic payload) h =
      validate_semantic_body-IsSemantic payload h

  record HeaderHolds : Type 0 where
    version : body.contract_version ≡ "atom-v1"
    scoped : IsScope body.scope
    triggered : body.trigger ≢ ""
    produced : body.provenance.producer ≢ ""
    governed : policy_digest ext policy ≡ ok body.provenance.policy_digest
    started : body.interval.started_at_us ≤ body.interval.ended_at_us
    recorded : body.interval.ended_at_us ≤ body.interval.recorded_at_us

  header-HeaderHolds : validate_header ext policy body ≡ ok tt → HeaderHolds
  unfolding validate_header
  header-HeaderHolds h =
      let (a, h₁) = reject_if-eq-ok (not (str_eq body.contract_version "atom-v1")) _ _ h in
      let (b, h₂) = >>-eq-ok (validate_scope body.scope) _ h₁ in
      let (c, h₃) = reject_if-eq-ok (str_empty body.trigger) _ _ h₂ in
      let (d, h₄) = reject_if-eq-ok (str_empty body.provenance.producer) _ _ h₃ in
      let (digest, e, h₅) = >>=-eq-ok (policy_digest ext policy) _ h₄ in
      let (f, h₆) = reject_if-eq-ok (not (body.provenance.policy_digest == digest)) _ _ h₅ in
      let g =
        reject_if-last
          (ltb body.interval.ended_at_us body.interval.started_at_us
            || ltb body.interval.recorded_at_us body.interval.ended_at_us)
          _ h₆ in
      record {
        version = (str_eq_iff _ _).0 (not-false (str_eq body.contract_version "atom-v1") a);
        scoped = validate_scope-IsScope body.scope b;
        triggered = not_empty _ c;
        produced = not_empty _ d;
        governed = e ∙ ap ok (sym (not_eq _ _ f));
        started = ground arith;
        recorded = ground arith;
      }

  record LinksHold : Type 0 where
    artifacts : All (IsArtifact ext policy) body.artifacts
    artifacts_distinct : Distinct (map (λ a. a.digest) body.artifacts)
    declared :
        All
          (λ digest. Has digest (map (λ a. a.digest) body.artifacts))
          (filter_map (λ o. o.artifact_digest) body.observations)
    relations_distinct : Distinct (relation_keys body.relations)

  links-LinksHold : validate_links ext policy body ≡ ok tt → LinksHold
  unfolding validate_links validate_artifacts
  links-LinksHold h =
      let (a, h₁) = >>-eq-ok (validate_artifacts ext policy body.artifacts) _ h in
      let (all, distinct, _) = artifacts_from-All ext policy [] body.artifacts a in
      let (b, h₂) =
        >>-eq-ok (each _ (filter_map (λ o. o.artifact_digest) body.observations)) _ h₁ in
      let c =
        reject_if-last
          (not (length (set_of (relation_keys body.relations)) == length body.relations)) _ h₂ in
      let digests : List Digest32 = map (λ a. a.digest) body.artifacts in
      let found =
        All-map _ (λ d. Has d digests) (filter_map (λ o. o.artifact_digest) body.observations)
          (λ d e. contains-Has d digests (
            sym (set_contains-set_of d digests)
            ∙ not-false _ (reject_if-last (not (set_contains d (set_of digests))) _ e)))
          (each-All _ _ b) in
      record {
        artifacts = all;
        artifacts_distinct = distinct;
        declared = found;
        relations_distinct = Distinct-of_length (relation_keys body.relations) (
            not_eq _ _ c
            ∙ sym (length-map (λ r. (relation_kind_key r.kind, r.target)) body.relations));
      }

  exact-bounded :
      validate_exact ext policy body ≡ ok tt
      → (bytes : ℕ) × (exact_package_bytes ext body ≡ ok bytes)
        × (bytes ≤ policy.exact_package_max_bytes)
  unfolding validate_exact
  exact-bounded h =
      let (a, h₁) = reject_if-eq-ok (anyb _ body.artifacts) _ _ h in
      let (bytes, b, h₂) = >>=-eq-ok (exact_package_bytes ext body) _ h₁ in
      let c = reject_if-last (ltb policy.exact_package_max_bytes bytes) _ h₂ in
      (bytes, b, ground arith)

  exact-ExactFits :
      (permission : RetentionPermission)
      → (if exact_only permission then validate_exact ext policy body else ok tt) ≡ ok tt
      → ExactFits ext policy body permission
  exact-ExactFits transient_only h = tt
  exact-ExactFits semantic_allowed h = tt
  exact-ExactFits semantic_and_exact_allowed h = exact-bounded h

  record SizesHold : Type 0 where
    sized :
        (size : ℕ) × (encoded_size_bytes ext body ≡ ok size) × (size ≤ policy.atom_hard_max_bytes)
    exact_sized : ExactFits ext policy body body.retention_permission

  sizes-SizesHold : validate_sizes ext policy body ≡ ok tt → SizesHold
  unfolding validate_sizes
  sizes-SizesHold h =
      let (size, a, h₁) = >>=-eq-ok (encoded_size_bytes ext body) _ h in
      let (b, h₂) = reject_if-eq-ok (ltb policy.atom_hard_max_bytes size) _ _ h₁ in
      record {
        sized = (size, a, ground arith);
        exact_sized = exact-ExactFits body.retention_permission h₂;
      }

  -- A body that passes is an atom: committed policy, scope, interval, observations, artifacts with
  -- distinct digests that close over their payloads, declared references, distinct relations, a payload
  -- that closes over them, and sizes within the policy.
  pub validate_memory_atom_body-IsAtom :
      validate_memory_atom_body ext policy body ≡ ok tt → IsAtom ext policy body
  unfolding validate_memory_atom_body
  validate_memory_atom_body-IsAtom h =
      let (a, h₁) = >>-eq-ok (validate_poc_v1 policy) _ h in
      let (b, h₂) = >>-eq-ok (validate_header ext policy body) _ h₁ in
      let (c, h₃) = >>-eq-ok (validate_observations ext policy body) _ h₂ in
      let (d, h₄) = >>-eq-ok (validate_links ext policy body) _ h₃ in
      let (e, f) = >>-eq-ok (validate_payload ext policy body body.payload) _ h₄ in
      let header = header-HeaderHolds b in
      let links = links-LinksHold d in
      let sizes = sizes-SizesHold f in
      record {
        committed = validate_poc_v1-eq-ok policy a;
        version = header.version;
        scoped = header.scoped;
        triggered = header.triggered;
        produced = header.produced;
        governed = header.governed;
        started = header.started;
        recorded = header.recorded;
        observed = observations-All ext policy body c;
        artifacts = links.artifacts;
        artifacts_distinct = links.artifacts_distinct;
        declared = links.declared;
        relations_distinct = links.relations_distinct;
        payload_closes = payload-PayloadCloses body.payload e;
        sized = sizes.sized;
        exact_sized = sizes.exact_sized;
      }
