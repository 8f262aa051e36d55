-- ===== src/Seal/Episode.antt =====
-- crates/naome-memory-core/src/seal.rs: the bodies of episodes, `seal_episode` and `seal_episode_chain`.
--
-- `&events[..1]` panics on no events, which `validate_episode_input` rejects before; the model takes an
-- empty prefix there.
pub mod Closure
pub mod Body
pub mod Chain
use naome_memory.Base.{
  ℕ, zero, suc, ◌+◌, ◌-◌, Bool, true, false, not, ◌&&◌, ◌||◌, List, [], ◌∷◌, ◌++◌, Option, none,
  some, ltb, leb, ◌==◌, if◌then◌else◌, length, take, drop, filterb, filter_map, is_nil, nats_eq,
  checked_add, checked_sub, sort_by,
}
use naome_memory.Error.{
  Result, ok, err, ok_or, reject_if, ◌>>=◌, ◌>>◌, canonical_encoding, empty_episode,
  invalid_atom_body, episode_requires_split,
}
use naome_memory.Policy.{Policy, validate_poc_v1}
use naome_memory.Atom.{
  Digest32, AtomId, MemoryAtomBody, MemoryRelation, MemoryRelationKind, continues, MemoryPayload,
  EpisodePayload,
}
use naome_memory.Externals.{Externals}
use naome_memory.Digests.{atom_id, encoded_size_bytes, policy_digest}
use naome_memory.Validation.{relation_kind_key, is_kind, validate_memory_atom_body}
use naome_memory.Seal.Types.{
  EpisodeEvent, EpisodeBuffer, SealEpisodeRequest, SealedEpisode, SealedEpisodeChain,
}
use naome_memory.Seal.Input.{validate_episode_input}
use naome_memory.Seal.Prepared.{PreparedEpisodeEvents, prepare, range_body_bytes}
use naome_memory.Seal.Partition.{plan_episode_ranges}

-- `slice.get(start..end)`
unfoldable pub slice {ℓ} : {A : Type ℓ} → ℕ → ℕ → List A → Option (List A)
slice start end xs =
    if leb start end && leb end (length xs) then some (take (end - start) (drop start xs)) else none

abbrev pub first {ℓ} : {A : Type ℓ} → List A → Option A
first [] = none
first (x ∷ xs) = some x

abbrev pub last {ℓ} : {A : Type ℓ} → List A → Option A
last [] = none
last (x ∷ []) = some x
last (x ∷ y ∷ xs) = last (y ∷ xs)

-- The order of the keys `(relation.target, relation_kind_key(relation.kind))`.
unfoldable pub relation_le : MemoryRelation → MemoryRelation → Bool
unfolding relation_kind_key
relation_le left right =
    ltb left.target right.target
    || (left.target == right.target
        && leb (relation_kind_key left.kind) (relation_kind_key right.kind))

abbrev pub continuation : Option AtomId → List MemoryRelation
continuation none = []
continuation (some previous) = record { kind = continues; target = previous } ∷ []

-- The relations of a body: those of the request but its continuations, and the one to the episode before.
unfoldable pub episode_relations : SealEpisodeRequest → Option AtomId → List MemoryRelation
unfolding relation_le sort_by
episode_relations request previous =
    sort_by relation_le
      (filterb (λ r. not (is_kind continues r)) request.relations ++ continuation previous)

unfoldable pub build_episode_body :
    EpisodeBuffer
    → SealEpisodeRequest
    → Digest32
    → List EpisodeEvent
    → List Digest32
    → ℕ
    → ℕ
    → Option AtomId
    → Result MemoryAtomBody
unfolding episode_relations
build_episode_body buffer request digest events event_digests started_at_us ended_at_us previous =
    do
      first_event ← ok_or (first events) empty_episode
      last_event ← ok_or (last events) empty_episode
      ok (record {
        contract_version = "atom-v1";
        scope = buffer.scope;
        interval = record {
          started_at_us = started_at_us;
          ended_at_us = ended_at_us;
          recorded_at_us = request.as_of_us;
        };
        trigger = request.trigger;
        seal_reason = request.seal_reason;
        goal = request.goal;
        plan = request.plan;
        internal_state_before = request.internal_state_before;
        internal_state_after = request.internal_state_after;
        observations = filter_map (λ e. e.observation) events;
        interpretations = filter_map (λ e. e.interpretation) events;
        beliefs = filter_map (λ e. e.belief) events;
        decisions = filter_map (λ e. e.decision) events;
        rejected_alternatives = request.rejected_alternatives;
        actions = filter_map (λ e. e.action) events;
        outcome = request.outcome;
        feedback = request.feedback;
        formation_signals = request.formation_signals;
        topic_keys = request.topic_keys;
        entity_ids = request.entity_ids;
        outcome_class = request.outcome_class;
        goal_key = request.goal_key;
        provenance = record {
          producer = "naome-memory-core/seal_episode";
          source_event_digests = event_digests;
          policy_digest = digest;
        };
        relations = episode_relations request previous;
        artifacts = request.artifacts;
        retention_permission = request.retention_permission;
        payload = MemoryPayload.episode (record {
          event_sequence_start = first_event.sequence;
          event_sequence_end = last_event.sequence;
          continues = previous;
        });
      })

-- `events.first().map_or(time, |event| event.at_us)`
abbrev pub time_or : Option EpisodeEvent → ℕ → ℕ
time_or none time = time
time_or (some event) time = event.at_us

abbrev pub same_id : Option AtomId → Option AtomId → Bool
same_id none none = true
same_id none (some right) = false
same_id (some left) none = false
same_id (some left) (some right) = left == right

module _ (ext : Externals) where
  unfoldable pub segment_base_bytes :
      EpisodeBuffer
      → SealEpisodeRequest
      → Digest32
      → PreparedEpisodeEvents
      → Option AtomId
      → Result ℕ
  segment_base_bytes buffer request digest prepared previous = do
    body ←
        build_episode_body buffer request digest (take 1 buffer.events) (take 1 prepared.digests)
          buffer.started_at_us request.ended_at_us previous
    size ← encoded_size_bytes ext body
    own ← range_body_bytes prepared 0 1
    ok_or (checked_sub size own) (canonical_encoding "episode segment base size underflowed")

abbrev pub sealed_chain : EpisodeBuffer → List SealedEpisode → SealedEpisodeChain
sealed_chain buffer episodes = record {
  contract_version = "sealed-episode-chain-v1";
  source_event_count = length buffer.events;
  episodes = episodes;
}

module _ (ext : Externals) (policy : Policy) where
  unfoldable pub seal_episode_range :
      EpisodeBuffer
      → SealEpisodeRequest
      → PreparedEpisodeEvents
      → ℕ
      → ℕ
      → Option AtomId
      → Result SealedEpisode
  unfolding slice build_episode_body
  seal_episode_range buffer request prepared start end previous = do
    events ← ok_or (slice start end buffer.events) (canonical_encoding "episode split range failed")
    event_digests ←
        ok_or (slice start end prepared.digests) (canonical_encoding "episode digest range failed")
    digest ← policy_digest ext policy
    body ←
        build_episode_body buffer request digest events event_digests
          (if start == 0 then buffer.started_at_us else time_or (first events) buffer.started_at_us)
          (if end == length buffer.events
            then request.ended_at_us
            else time_or (last events) request.ended_at_us)
          previous
    validate_memory_atom_body ext policy body
    size ← encoded_size_bytes ext body
    id ← atom_id ext body
    ok (record {
      atom_id = id;
      body = body;
      canonical_size_bytes = size;
      target_size_exceeded = ltb policy.atom_target_bytes size;
    })

  unfoldable pub seal_episode : EpisodeBuffer → SealEpisodeRequest → Result SealedEpisode
  seal_episode buffer request = do
    validate_poc_v1 policy
    validate_episode_input ext policy buffer request
    prepared ← prepare ext buffer.events
    sealed ← seal_episode_range buffer request prepared 0 (length buffer.events) buffer.continues
    reject_if sealed.target_size_exceeded
        (episode_requires_split sealed.canonical_size_bytes policy.atom_target_bytes)
    ok sealed

  module _ (buffer : EpisodeBuffer) (request : SealEpisodeRequest)
      (prepared : PreparedEpisodeEvents) where
    -- One turn of the loop over the ranges.
    unfoldable pub seal_segment : ℕ → ℕ → Option AtomId → ℕ → ℕ → Result SealedEpisode
    seal_segment first_base continued_base previous start end = do
      sealed ← seal_episode_range buffer request prepared start end previous
      own ← range_body_bytes prepared start end
      planned_size ←
          ok_or (checked_add (if start == 0 then first_base else continued_base) own)
            (canonical_encoding "episode segment size overflowed u64")
      reject_if (not (sealed.canonical_size_bytes == planned_size))
          (canonical_encoding "episode partition size model drifted")
      reject_if sealed.target_size_exceeded
          (episode_requires_split sealed.canonical_size_bytes policy.atom_target_bytes)
      ok sealed

    unfoldable pub seal_segments :
        ℕ → ℕ → Option AtomId → List (ℕ × ℕ) → Result (List SealedEpisode)
    seal_segments first_base continued_base previous [] = ok []
    seal_segments first_base continued_base previous ((start, end) ∷ ranges) = do
      sealed ← seal_segment first_base continued_base previous start end
      rest ← seal_segments first_base continued_base (some sealed.atom_id) ranges
      ok (sealed ∷ rest)

  -- What the closure checks of an episode of these events and digests.
  unfoldable pub validate_link :
      Option AtomId
      → SealedEpisode
      → List EpisodeEvent
      → List Digest32
      → EpisodePayload
      → Result (Unit {0})
  validate_link previous episode source_events expected_digests payload = do
    first_event ←
        ok_or (first source_events) (invalid_atom_body "episode chain contains an empty atom")
    last_event ←
        ok_or (last source_events) (invalid_atom_body "episode chain contains an empty atom")
    reject_if
        (not (payload.event_sequence_start == first_event.sequence)
          || (not (payload.event_sequence_end == last_event.sequence)
              || (not (same_id payload.continues previous)
                  || not (nats_eq episode.body.provenance.source_event_digests expected_digests))))
        (invalid_atom_body "episode chain does not close over its ordered source stream")
    size ← encoded_size_bytes ext episode.body
    reject_if
        (not (episode.canonical_size_bytes == size)
          || (ltb policy.atom_target_bytes episode.canonical_size_bytes
              || ltb policy.atom_hard_max_bytes episode.canonical_size_bytes))
        (invalid_atom_body "episode chain does not close over its ordered source stream")
    id ← atom_id ext episode.body
    reject_if (not (episode.atom_id == id))
        (invalid_atom_body "episode chain does not close over its ordered source stream")

  module _ (buffer : EpisodeBuffer) (prepared : PreparedEpisodeEvents) where
    -- One turn of the closure's loop; where the next episode starts.
    unfoldable pub validate_episode_link :
        ℕ → Option AtomId → SealedEpisode → MemoryPayload → Result ℕ
    validate_episode_link source_cursor previous episode (MemoryPayload.semantic payload) =
        err (invalid_atom_body "episode chain contains a non-episode body")
    validate_episode_link source_cursor previous episode (MemoryPayload.episode payload) = do
      source_end ←
          ok_or (checked_add source_cursor (length episode.body.provenance.source_event_digests))
            (canonical_encoding "episode chain event count overflowed usize")
      source_events ←
          ok_or (slice source_cursor source_end buffer.events)
            (invalid_atom_body "episode chain exceeds the source event stream")
      expected_digests ←
          ok_or (slice source_cursor source_end prepared.digests)
            (invalid_atom_body "episode chain digest range is incomplete")
      validate_link previous episode source_events expected_digests payload
      ok source_end

    -- The loop; where the last episode ends.
    unfoldable pub validate_links_from : ℕ → Option AtomId → List SealedEpisode → Result ℕ
    validate_links_from source_cursor previous [] = ok source_cursor
    validate_links_from source_cursor previous (episode ∷ episodes) = do
      source_end ← validate_episode_link source_cursor previous episode episode.body.payload
      validate_links_from source_end (some episode.atom_id) episodes

    unfoldable pub validate_episode_chain_closure : SealedEpisodeChain → Result (Unit {0})
    validate_episode_chain_closure chain = do
      source_cursor ← validate_links_from 0 buffer.continues chain.episodes
      reject_if
          (not (source_cursor == length buffer.events)
            || (not (chain.source_event_count == length buffer.events) || is_nil chain.episodes))
          (invalid_atom_body "episode chain source-event closure is incomplete")

  unfoldable pub seal_episode_chain : EpisodeBuffer → SealEpisodeRequest → Result SealedEpisodeChain
  seal_episode_chain buffer request = do
    validate_poc_v1 policy
    validate_episode_input ext policy buffer request
    prepared ← prepare ext buffer.events
    digest ← policy_digest ext policy
    first_base ← segment_base_bytes ext buffer request digest prepared buffer.continues
    continued_base ← segment_base_bytes ext buffer request digest prepared (some 0)
    ranges ← plan_episode_ranges prepared request first_base continued_base policy.atom_target_bytes
    episodes ←
        seal_segments buffer request prepared first_base continued_base buffer.continues ranges
    let chain = sealed_chain buffer episodes
    validate_episode_chain_closure buffer prepared chain
    ok chain
