-- ===== src/Seal/Episode/Chain.antt =====
-- crates/naome-memory-core/src/seal.rs: the chains that `seal_episode_chain` seals.
use naome_memory.Base.{
  ℕ, suc, ◌+◌, ◌^◌, ◌≤◌, ◌≡◌, ◌≢◌, ◌∙◌, refl, ap, subst, false, not, List, [], ◌∷◌, Option, some,
  length, ◌==◌, arith, if◌then◌else◌, All, checked_add,
}
use naome_memory.Error.{ok, ok_or, >>=-eq-ok, >>-eq-ok, reject_if-eq-ok, ok_or-eq-ok, ok_inj}
use naome_memory.Policy.{Policy, validate_poc_v1}
use naome_memory.Atom.{Digest32, AtomId}
use naome_memory.Externals.{Externals}
use naome_memory.Digests.{policy_digest}
use naome_memory.Validation.Spec.{IsAtom}
use naome_memory.Seal.Types.{EpisodeBuffer, SealEpisodeRequest, SealedEpisode, SealedEpisodeChain}
use naome_memory.Seal.Input.{validate_episode_input}
use naome_memory.Seal.Stream.{IsEpisodeInput, validate_episode_input-IsEpisodeInput}
use naome_memory.Seal.Prepared.{PreparedEpisodeEvents, prepare, range_body_bytes}
use naome_memory.Seal.Totals.{length-prepare, prepare-IsPrepared}
use naome_memory.Seal.Partition.{plan_episode_ranges, shared_substantive}
use naome_memory.Seal.Partition.Optimal.{IsPartition, IsLatest, plan_episode_ranges-IsPartition}
use naome_memory.Seal.Episode.{
  seal_episode_range, seal_segment, seal_segments, segment_base_bytes,
  validate_episode_chain_closure, sealed_chain, seal_episode_chain,
}
use naome_memory.Seal.Episode.Body.{IsSealed, seal_episode_range-IsSealed}
use naome_memory.Seal.Episode.Closure.{IsClosed, validate_episode_chain_closure-IsClosed}

planned :
    (size base own total : ℕ)
    → not (size == total) ≡ false
    → checked_add base own ≡ some total
    → size ≡ base + own
planned size base own total h e = ground arith

module _ (ext : Externals) (policy : Policy) (buffer : EpisodeBuffer)
    (request : SealEpisodeRequest) where
  module _ (prepared : PreparedEpisodeEvents) (first_base continued_base : ℕ) where
    -- The size that a segment was planned with.
    abbrev pub IsPlanned : ℕ → ℕ → ℕ → Type 0
    IsPlanned start end size =
        (own : ℕ) × (range_body_bytes prepared start end ≡ ok own)
        × (size ≡ (if start == 0 then first_base else continued_base) + own)

    -- One episode for each range, after the episode before it, of the size that was planned.
    abbrev pub SealsAlong : Option AtomId → List (ℕ × ℕ) → List SealedEpisode → Type 0
    SealsAlong previous [] [] = Unit
    SealsAlong previous ((start, end) ∷ ranges) (episode ∷ episodes) =
        IsSealed ext policy buffer request prepared start end previous episode
        × IsPlanned start end episode.canonical_size_bytes
        × SealsAlong (some episode.atom_id) ranges episodes
    SealsAlong previous [] (episode ∷ episodes) = ⊥
    SealsAlong previous (range ∷ ranges) [] = ⊥

    SealsAlong-length :
        (previous : Option AtomId) (ranges : List (ℕ × ℕ)) (episodes : List SealedEpisode)
        → SealsAlong previous ranges episodes
        → length episodes ≡ length ranges
    SealsAlong-length previous [] [] h = refl
    SealsAlong-length previous ((start, end) ∷ ranges) (episode ∷ episodes) (s, p, h) =
        ap suc (SealsAlong-length (some episode.atom_id) ranges episodes h)
    SealsAlong-length previous [] (episode ∷ episodes) h = absurd h
    SealsAlong-length previous (range ∷ ranges) [] h = absurd h

    SealsAlong-All :
        (previous : Option AtomId) (ranges : List (ℕ × ℕ)) (episodes : List SealedEpisode)
        → SealsAlong previous ranges episodes
        → All (λ e. IsAtom ext policy e.body) episodes
    SealsAlong-All previous [] [] h = tt
    SealsAlong-All previous ((start, end) ∷ ranges) (episode ∷ episodes) (s, p, h) =
        (s.atom, SealsAlong-All (some episode.atom_id) ranges episodes h)
    SealsAlong-All previous [] (episode ∷ episodes) h = absurd h
    SealsAlong-All previous (range ∷ ranges) [] h = absurd h

    seal_segment-IsSealed :
        (previous : Option AtomId) (start end : ℕ) (episode : SealedEpisode)
        → seal_segment ext policy buffer request prepared first_base continued_base previous start
            end
          ≡ ok episode
        → IsSealed ext policy buffer request prepared start end previous episode
          × IsPlanned start end episode.canonical_size_bytes
    unfolding seal_segment
    seal_segment-IsSealed previous start end episode h =
        let (made, a, h₁) =
          >>=-eq-ok (seal_episode_range ext policy buffer request prepared start end previous) _
            h in
        let (own, b, h₂) = >>=-eq-ok (range_body_bytes prepared start end) _ h₁ in
        let (total, c, h₃) = >>=-eq-ok (ok_or (checked_add _ own) _) _ h₂ in
        let (d, h₄) = reject_if-eq-ok (not (made.canonical_size_bytes == total)) _ _ h₃ in
        let (e, h₅) = reject_if-eq-ok made.target_size_exceeded _ _ h₄ in
        subst
          (λ (m : SealedEpisode).
            IsSealed ext policy buffer request prepared start end previous m
            × IsPlanned start end m.canonical_size_bytes)
          (ok_inj h₅)
          (
            seal_episode_range-IsSealed ext policy buffer request prepared start end previous made
                a,
            (own, b, planned _ _ own total d (ok_or-eq-ok _ _ c)),
          )

    seal_segments-SealsAlong :
        (ranges : List (ℕ × ℕ)) (previous : Option AtomId) (episodes : List SealedEpisode)
        → seal_segments ext policy buffer request prepared first_base continued_base previous ranges
          ≡ ok episodes
        → SealsAlong previous ranges episodes
    unfolding seal_segments
    seal_segments-SealsAlong [] previous episodes h = subst (SealsAlong previous []) (ok_inj h) tt
    seal_segments-SealsAlong ((start, end) ∷ ranges) previous episodes h =
        let (episode, a, h₁) =
          >>=-eq-ok
            (seal_segment ext policy buffer request prepared first_base continued_base previous
              start end)
            _ h in
        let (rest, b, h₂) =
          >>=-eq-ok
            (seal_segments ext policy buffer request prepared first_base continued_base
              (some episode.atom_id) ranges)
            _ h₁ in
        let (s, p) = seal_segment-IsSealed previous start end episode a in
        subst (SealsAlong previous ((start, end) ∷ ranges)) (ok_inj h₂)
          (s, p, seal_segments-SealsAlong ranges (some episode.atom_id) rest b)

  -- A chain of episodes for all the events of the buffer.
  pub record IsChain (chain : SealedEpisodeChain) : Type 0 where
    pub version : chain.contract_version ≡ "sealed-episode-chain-v1"
    pub input : IsEpisodeInput buffer request
    pub prepared : PreparedEpisodeEvents
    pub prepare_eq : prepare ext buffer.events ≡ ok prepared
    pub present : chain.episodes ≢ []
    pub counted : chain.source_event_count ≡ length buffer.events
    pub closed : IsClosed ext policy buffer.events prepared.digests buffer.continues chain.episodes
    pub atoms : All (λ e. IsAtom ext policy e.body) chain.episodes

  -- The steps of a chain that was sealed.
  pub record IsBuilt (chain : SealedEpisodeChain) : Type 0 where
    pub input_ok : validate_episode_input ext policy buffer request ≡ ok tt
    pub prepared : PreparedEpisodeEvents
    pub prepare_eq : prepare ext buffer.events ≡ ok prepared
    pub digest : Digest32
    pub digest_eq : policy_digest ext policy ≡ ok digest
    pub first_base : ℕ
    pub first_eq :
        segment_base_bytes ext buffer request digest prepared buffer.continues ≡ ok first_base
    pub continued_base : ℕ
    pub continued_eq :
        segment_base_bytes ext buffer request digest prepared (some 0) ≡ ok continued_base
    pub ranges : List (ℕ × ℕ)
    pub ranges_eq :
        plan_episode_ranges prepared request first_base continued_base policy.atom_target_bytes
        ≡ ok ranges
    pub along : SealsAlong prepared first_base continued_base buffer.continues ranges chain.episodes
    pub closure : validate_episode_chain_closure ext policy buffer prepared chain ≡ ok tt
    pub version : chain.contract_version ≡ "sealed-episode-chain-v1"

  seal_episode_chain-IsBuilt :
      (chain : SealedEpisodeChain)
      → seal_episode_chain ext policy buffer request ≡ ok chain
      → IsBuilt chain
  unfolding seal_episode_chain
  seal_episode_chain-IsBuilt chain h =
      let (a, h₁) = >>-eq-ok (validate_poc_v1 policy) _ h in
      let (b, h₂) = >>-eq-ok (validate_episode_input ext policy buffer request) _ h₁ in
      let (prepared, c, h₃) = >>=-eq-ok (prepare ext buffer.events) _ h₂ in
      let (digest, d, h₄) = >>=-eq-ok (policy_digest ext policy) _ h₃ in
      let (first_base, e, h₅) =
        >>=-eq-ok (segment_base_bytes ext buffer request digest prepared buffer.continues) _ h₄ in
      let (continued_base, f, h₆) =
        >>=-eq-ok (segment_base_bytes ext buffer request digest prepared (some 0)) _ h₅ in
      let (ranges, g, h₇) =
        >>=-eq-ok
          (plan_episode_ranges prepared request first_base continued_base policy.atom_target_bytes)
          _ h₆ in
      let (episodes, i, h₈) =
        >>=-eq-ok
          (seal_segments ext policy buffer request prepared first_base continued_base
            buffer.continues ranges)
          _ h₇ in
      let (j, h₉) =
        >>-eq-ok
          (validate_episode_chain_closure ext policy buffer prepared (sealed_chain buffer episodes))
          _ h₈ in
      subst IsBuilt (ok_inj h₉) (record {
        input_ok = b;
        prepared = prepared;
        prepare_eq = c;
        digest = digest;
        digest_eq = d;
        first_base = first_base;
        first_eq = e;
        continued_base = continued_base;
        continued_eq = f;
        ranges = ranges;
        ranges_eq = g;
        along =
            seal_segments-SealsAlong prepared first_base continued_base ranges buffer.continues
              episodes i;
        closure = j;
        version = refl;
      })

  -- A chain that `seal_episode_chain` seals, of an input as `validate_episode_input` wants it, has an episode
  -- and counts the events of the buffer; the events and their digests are cut into consecutive parts, one for
  -- each episode, whose payload, digests, size and identifier are those of its part and of its body, which
  -- continues the episode before it, the first one what the buffer continues, and whose size is within the
  -- target and the maximum; and every body is a valid atom.
  pub seal_episode_chain-IsChain :
      (chain : SealedEpisodeChain)
      → seal_episode_chain ext policy buffer request ≡ ok chain
      → IsChain chain
  seal_episode_chain-IsChain chain h =
      let b = seal_episode_chain-IsBuilt chain h in
      let (present, counted, closed) =
        validate_episode_chain_closure-IsClosed ext policy buffer b.prepared chain
          (length-prepare ext buffer.events b.prepared b.prepare_eq) b.closure in
      record {
        version = b.version;
        input = validate_episode_input-IsEpisodeInput ext policy buffer request b.input_ok;
        prepared = b.prepared;
        prepare_eq = b.prepare_eq;
        present = present;
        counted = counted;
        closed = closed;
        atoms =
            SealsAlong-All b.prepared b.first_base b.continued_base buffer.continues b.ranges _
              b.along;
      }

  -- The ranges of a chain: a partition of the events, sealed one after another, with no more episodes than
  -- any partition and the latest ends among those of as many.
  pub record IsShortest (chain : SealedEpisodeChain) : Type 0 where
    pub built : IsBuilt chain
    pub partition :
        IsPartition built.prepared
          (shared_substantive request)
          built.first_base
          built.continued_base
          policy.atom_target_bytes
          0
          built.ranges
    pub shortest :
        (others : List (ℕ × ℕ))
        → IsPartition built.prepared
            (shared_substantive request)
            built.first_base
            built.continued_base
            policy.atom_target_bytes
            0
            others
        → (length chain.episodes ≤ length others)
          × (length others ≡ length chain.episodes → IsLatest built.ranges others)

  -- A chain that `seal_episode_chain` seals, of fewer than 2^62 events, has one episode for each range of a
  -- partition of the events into segments within the target, each sealed of its range, after the episode
  -- before it, at the size of its base and its events; no partition into such segments has fewer; and beside
  -- one of as many, at the first end in which the two differ, that of the chain is later.
  pub seal_episode_chain-IsShortest :
      (chain : SealedEpisodeChain)
      → suc (length buffer.events) ≤ 2 ^ 62
      → seal_episode_chain ext policy buffer request ≡ ok chain
      → IsShortest chain
  seal_episode_chain-IsShortest chain few h =
      let b = seal_episode_chain-IsBuilt chain h in
      let (p, count) = prepare-IsPrepared ext buffer.events b.prepared few b.prepare_eq in
      let (partition, shortest) =
        plan_episode_ranges-IsPartition b.prepared request b.first_base b.continued_base
          policy.atom_target_bytes b.ranges p b.ranges_eq in
      let same =
        SealsAlong-length b.prepared b.first_base b.continued_base buffer.continues b.ranges _
          b.along in
      record {
        built = b;
        partition = partition;
        shortest = λ others q.
            let (least, latest) = shortest others q in (omega arith, λ l. latest (l ∙ same));
      }
