-- ===== src/Tests/Seals.antt =====
-- The sealing of episodes on concrete events.
use naome_memory.Base.{
  ℕ, zero, suc, ◌+◌, ◌-◌, ◌≤◌, ◌≡◌, refl, inr, List, [], ◌∷◌, none, some, false, length, take, drop,
  arith, nats_eq,
}
use naome_memory.Canonical.{value, null, array, Values, nil, cons, canonical_binary}
use naome_memory.Error.{ok, err, episode_requires_split}
use naome_memory.Atom.{checkpoint, semantic_and_exact_allowed, continues, MemoryPayload}
use naome_memory.Policy.{poc_v1}
use naome_memory.Externals.{Externals}
use naome_memory.Digests.{atom_id}
use naome_memory.Validation.{validate_memory_atom_body}
use naome_memory.Seal.Types.{
  EpisodeEvent, EpisodeBuffer, SealEpisodeRequest, SealedEpisode, SealedEpisodeChain,
}
use naome_memory.Seal.Input.{validate_episode_input}
use naome_memory.Seal.Stream.{IsEpisodeInput, validate_episode_input-IsEpisodeInput}
use naome_memory.Seal.Prepared.{PreparedEpisodeEvents, prepare, range_body_bytes}
use naome_memory.Seal.Totals.{range_body_bytes-sum, prepare-IsPrepared, Measures, sum}
use naome_memory.Seal.Routes.{new_routes, insert, best_in}
use naome_memory.Seal.Routes.Store.{best_of}
use naome_memory.Seal.Routes.Inserted.{insert_all, put_all, best_in-insert_all}
use naome_memory.Seal.Partition.{
  plan_episode_ranges, route_all, route_one, route_start, collect_ranges, segment_ends, maximum_end,
  minimum_end, partition_point, validate_partition_boundary,
}
use naome_memory.Seal.Partition.Segments.{IsPrepared, Segment}
use naome_memory.Seal.Partition.Optimal.{
  IsPartition, IsLatest, plan_episode_ranges-IsPartition, plan_episode_ranges_complete,
  plan_episode_ranges-err,
}
use naome_memory.Seal.Episode.{
  slice, seal_episode, seal_episode_chain, seal_episode_range, build_episode_body,
  segment_base_bytes, seal_segment, seal_segments, validate_link, validate_episode_link,
  validate_links_from, validate_episode_chain_closure,
}
use naome_memory.Seal.Episode.Body.{IsWhole, seal_episode-IsWhole}
use naome_memory.Seal.Episode.Chain.{
  IsChain, IsShortest, seal_episode_chain-IsChain, seal_episode_chain-IsShortest,
}
use naome_memory.Tests.Samples.{toy, first}

-- Three events of ten bytes, the first and the last one substantive.
abbrev three : PreparedEpisodeEvents
three = record {
  digests = 1 ∷ 2 ∷ 3 ∷ [];
  cumulative_body_bytes = 0 ∷ 10 ∷ 20 ∷ 30 ∷ [];
  cumulative_substantive = 0 ∷ 1 ∷ 1 ∷ 2 ∷ [];
}

three-IsPrepared : IsPrepared three
three-IsPrepared = record {
  bytes_length = refl;
  substantive_length = refl;
  bytes_rising = omega arith;
  substantive_rising = omega arith;
  bytes_small = omega arith;
  count_small = omega arith;
}

abbrev request : SealEpisodeRequest
request = record {
  as_of_us = 30;
  ended_at_us = 20;
  trigger = "turn";
  seal_reason = checkpoint;
  goal = none;
  plan = [];
  internal_state_before = [];
  internal_state_after = [];
  rejected_alternatives = [];
  outcome = none;
  feedback = [];
  formation_signals = first.formation_signals;
  topic_keys = [];
  entity_ids = [];
  outcome_class = none;
  goal_key = none;
  retention_permission = semantic_and_exact_allowed;
  artifacts = [];
  relations = [];
}

-- Two events and then one, in bodies of up to 25 bytes.
three_planned : plan_episode_ranges three request 5 5 25 ≡ ok ((0, 2) ∷ (2, 3) ∷ [])
unfolding plan_episode_ranges route_all route_one route_start collect_ranges segment_ends
    maximum_end minimum_end partition_point validate_partition_boundary new_routes insert best_in
three_planned = refl

-- No event fits beside a base of 20 bytes.
three_rejected : plan_episode_ranges three request 20 20 25 ≡ err (episode_requires_split 26 25)
unfolding plan_episode_ranges route_all route_one route_start collect_ranges segment_ends
    maximum_end minimum_end partition_point validate_partition_boundary new_routes insert best_in
three_rejected = refl

plan_episode_ranges-IsPartition_example :
    IsPartition three false 5 5 25 0 ((0, 2) ∷ (2, 3) ∷ [])
    × ((others : List (ℕ × ℕ))
        → IsPartition three false 5 5 25 0 others
        → (2 ≤ length others) × (length others ≡ 2 → IsLatest ((0, 2) ∷ (2, 3) ∷ []) others))
plan_episode_ranges-IsPartition_example =
    plan_episode_ranges-IsPartition three request 5 5 25 ((0, 2) ∷ (2, 3) ∷ []) three-IsPrepared
      three_planned

first-Segment : Segment three false 5 5 25 0 1
first-Segment = record {
  forward = omega arith;
  inside = omega arith;
  fits = omega arith;
  substance = inr (omega arith);
}

second-Segment : Segment three false 5 5 25 1 3
second-Segment = record {
  forward = omega arith;
  inside = omega arith;
  fits = omega arith;
  substance = inr (omega arith);
}

-- The first event, and then the other two.
other_parts : IsPartition three false 5 5 25 0 ((0, 1) ∷ (1, 3) ∷ [])
other_parts = (refl, first-Segment, (refl, second-Segment, refl))

plan_episode_ranges_complete_example :
    (ranges : List (ℕ × ℕ)) × (plan_episode_ranges three request 5 5 25 ≡ ok ranges)
plan_episode_ranges_complete_example =
    plan_episode_ranges_complete three request 5 5 25 ((0, 1) ∷ (1, 3) ∷ []) three-IsPrepared
      other_parts

plan_episode_ranges-err_example :
    (episode_requires_split 26 25 ≡ episode_requires_split 26 25)
    × ((others : List (ℕ × ℕ)) → IsPartition three false 20 20 25 0 others → ⊥)
plan_episode_ranges-err_example =
    plan_episode_ranges-err three request 20 20 25 (episode_requires_split 26 25) three-IsPrepared
      three_rejected

-- Choices at three of five boundaries; the last one of boundary 2 counts.
abbrev inserted : List (ℕ × ℕ)
inserted = (4, 0) ∷ (2, 7) ∷ (3, 1) ∷ (2, 1) ∷ []

best_in-insert_all_example :
    best_in (insert_all (new_routes 5) inserted) 1 4 ≡ best_of (put_all (λ i. none) inserted) 1 3
best_in-insert_all_example =
    best_in-insert_all 5 inserted 1 4 (omega arith) (omega arith) (omega arith) (omega arith)
      (omega arith)

-- A body is as long as its digests and observations, and the digest of an event tells its sequence.
abbrev items : ℕ → Values
items zero = nil
items (suc n) = cons null (items n)

abbrev sealing : Externals
sealing = record toy {
  body_value =
      λ b. value (array (items (length b.provenance.source_event_digests + length b.observations)));
  event_value = λ e. value (array (items e.sequence));
}

abbrev event : ℕ → ℕ → EpisodeEvent
event sequence at_us = record {
  sequence = sequence;
  at_us = at_us;
  scope = first.scope;
  observation =
      some
        (record { at_us = at_us; source = "test"; content = "observed"; artifact_digest = none });
  interpretation = none;
  belief = none;
  decision = none;
  action = none;
}

abbrev buffer : EpisodeBuffer
buffer = record {
  scope = first.scope;
  started_at_us = 10;
  events = event 4 12 ∷ event 5 15 ∷ [];
  continues = some 77;
}

accepted : validate_episode_input sealing poc_v1 buffer request ≡ ok tt
unfolding validate_episode_input
accepted = refl

validate_episode_input-IsEpisodeInput_example : IsEpisodeInput buffer request
validate_episode_input-IsEpisodeInput_example =
    validate_episode_input-IsEpisodeInput sealing poc_v1 buffer request accepted

abbrev two : PreparedEpisodeEvents
two = record {
  digests = 67 ∷ 76 ∷ [];
  cumulative_body_bytes = 0 ∷ 18 ∷ 36 ∷ [];
  cumulative_substantive = 0 ∷ 1 ∷ 2 ∷ [];
}

two_prepared : prepare sealing buffer.events ≡ ok two
unfolding prepare canonical_binary
two_prepared = refl

range_body_bytes-sum_example :
    (sizes : List ℕ) × Measures sealing buffer.events two.digests sizes
    × ((start end : ℕ)
        → start ≤ end
        → end ≤ 2
        → range_body_bytes two start end ≡ ok (sum (take (end - start) (drop start sizes))))
range_body_bytes-sum_example = range_body_bytes-sum sealing buffer.events two two_prepared

prepare-IsPrepared_example : IsPrepared two × (length two.digests ≡ 2)
prepare-IsPrepared_example = prepare-IsPrepared sealing buffer.events two (omega arith) two_prepared

abbrev whole : SealedEpisode
whole = record {
  atom_id = 66;
  body = record first {
    interval = record { started_at_us = 10; ended_at_us = 20; recorded_at_us = 30 };
    trigger = "turn";
    observations =
        record { at_us = 12; source = "test"; content = "observed"; artifact_digest = none }
        ∷ record { at_us = 15; source = "test"; content = "observed"; artifact_digest = none }
        ∷ [];
    topic_keys = [];
    entity_ids = [];
    provenance = record {
      producer = "naome-memory-core/seal_episode";
      source_event_digests = 67 ∷ 76 ∷ [];
      policy_digest = 24;
    };
    relations = record { kind = continues; target = 77 } ∷ [];
    artifacts = [];
    payload =
        MemoryPayload.episode
          (record { event_sequence_start = 4; event_sequence_end = 5; continues = some 77 });
  };
  canonical_size_bytes = 45;
  target_size_exceeded = false;
}

whole_sealed : seal_episode sealing poc_v1 buffer request ≡ ok whole
unfolding seal_episode seal_episode_range slice build_episode_body validate_episode_input prepare
    canonical_binary validate_memory_atom_body nats_eq atom_id
whole_sealed = refl

seal_episode-IsWhole_example : IsWhole sealing poc_v1 buffer request whole
seal_episode-IsWhole_example = seal_episode-IsWhole sealing poc_v1 buffer request whole whole_sealed

abbrev chain : SealedEpisodeChain
chain = record {
  contract_version = "sealed-episode-chain-v1";
  source_event_count = 2;
  episodes = whole ∷ [];
}

chain_sealed : seal_episode_chain sealing poc_v1 buffer request ≡ ok chain
unfolding seal_episode_chain segment_base_bytes seal_segments seal_segment seal_episode_range slice
    build_episode_body validate_episode_input prepare range_body_bytes canonical_binary
    validate_memory_atom_body nats_eq validate_episode_chain_closure validate_links_from
    validate_episode_link validate_link plan_episode_ranges route_all route_one route_start
    collect_ranges segment_ends maximum_end minimum_end partition_point validate_partition_boundary
    new_routes insert best_in atom_id
chain_sealed = refl

seal_episode_chain-IsChain_example : IsChain sealing poc_v1 buffer request chain
seal_episode_chain-IsChain_example =
    seal_episode_chain-IsChain sealing poc_v1 buffer request chain chain_sealed

seal_episode_chain-IsShortest_example : IsShortest sealing poc_v1 buffer request chain
seal_episode_chain-IsShortest_example =
    seal_episode_chain-IsShortest sealing poc_v1 buffer request chain (omega arith) chain_sealed
