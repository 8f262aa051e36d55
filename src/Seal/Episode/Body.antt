-- ===== src/Seal/Episode/Body.antt =====
-- crates/naome-memory-core/src/seal.rs: what `seal_episode_range` and `seal_episode` seal.
use naome_memory.Base.{
  ℕ, ◌-◌, ◌≤◌, ◌≡◌, ◌∙◌, refl, sym, ap, subst, subst₂, Bool, true, false, List, [], ◌∷◌, Option,
  some, length, filter_map, ltb, le→leb, some_inj, zero, suc, ◌==◌, arith, if◌then◌else◌, take,
}
use naome_memory.Error.{ok, ok_or, >>=-eq-ok, >>-eq-ok, reject_if-eq-ok, ok_or-eq-ok, ok_inj}
use naome_memory.Policy.{Policy, validate_poc_v1}
use naome_memory.Atom.{Digest32, AtomId, MemoryAtomBody, MemoryPayload}
use naome_memory.Externals.{Externals}
use naome_memory.Digests.{atom_id, encoded_size_bytes, policy_digest}
use naome_memory.Validation.{validate_memory_atom_body}
use naome_memory.Validation.Spec.{IsAtom}
use naome_memory.Validation.Sound.{validate_memory_atom_body-IsAtom}
use naome_memory.Seal.Types.{EpisodeEvent, EpisodeBuffer, SealEpisodeRequest, SealedEpisode}
use naome_memory.Seal.Input.{validate_episode_input}
use naome_memory.Seal.Prepared.{PreparedEpisodeEvents, prepare}
use naome_memory.Seal.Totals.{length-prepare}
use naome_memory.Seal.Stream.{IsEpisodeInput, validate_episode_input-IsEpisodeInput}
use naome_memory.Seal.Episode.{
  slice, first, last, time_or, episode_relations, build_episode_body, seal_episode_range,
  seal_episode,
}

-- The content of a body is that of its events.
pub record HoldsEvents (events : List EpisodeEvent) (digests : List Digest32)
    (previous : Option AtomId) (body : MemoryAtomBody) : Type 0 where
  pub observed : body.observations ≡ filter_map (λ e. e.observation) events
  pub interpreted : body.interpretations ≡ filter_map (λ e. e.interpretation) events
  pub believed : body.beliefs ≡ filter_map (λ e. e.belief) events
  pub decided : body.decisions ≡ filter_map (λ e. e.decision) events
  pub acted : body.actions ≡ filter_map (λ e. e.action) events
  pub traced : body.provenance.source_event_digests ≡ digests
  pub first_event : EpisodeEvent
  pub last_event : EpisodeEvent
  pub first_eq : first events ≡ some first_event
  pub last_eq : last events ≡ some last_event
  pub payload_eq :
      body.payload
      ≡ MemoryPayload.episode (record {
        event_sequence_start = first_event.sequence;
        event_sequence_end = last_event.sequence;
        continues = previous;
      })

build_episode_body-HoldsEvents :
    (buffer : EpisodeBuffer) (request : SealEpisodeRequest) (digest : Digest32)
    (events : List EpisodeEvent) (digests : List Digest32) (started ended : ℕ)
    (previous : Option AtomId) (body : MemoryAtomBody)
    → build_episode_body buffer request digest events digests started ended previous ≡ ok body
    → HoldsEvents events digests previous body
      × (body.interval ≡ record {
        started_at_us = started;
        ended_at_us = ended;
        recorded_at_us = request.as_of_us;
      })
      × (body.relations ≡ episode_relations request previous)
unfolding build_episode_body
build_episode_body-HoldsEvents buffer request digest events digests started ended previous body h =
    let (first_event, a, h₁) = >>=-eq-ok (ok_or (first events) _) _ h in
    let (last_event, b, h₂) = >>=-eq-ok (ok_or (last events) _) _ h₁ in
    subst
      (λ (made : MemoryAtomBody).
        HoldsEvents events digests previous made
        × (made.interval ≡ record {
          started_at_us = started;
          ended_at_us = ended;
          recorded_at_us = request.as_of_us;
        })
        × (made.relations ≡ episode_relations request previous))
      (ok_inj h₂)
      (
        record {
          observed = refl;
          interpreted = refl;
          believed = refl;
          decided = refl;
          acted = refl;
          traced = refl;
          first_event = first_event;
          last_event = last_event;
          first_eq = ok_or-eq-ok (first events) _ a;
          last_eq = ok_or-eq-ok (last events) _ b;
          payload_eq = refl;
        },
        refl,
        refl,
      )

module _ (ext : Externals) (policy : Policy) (buffer : EpisodeBuffer) (request : SealEpisodeRequest)
    (prepared : PreparedEpisodeEvents) where
  -- A sealed range of the events.
  pub record IsSealed (start end : ℕ) (previous : Option AtomId) (sealed : SealedEpisode)
      : Type 0 where
    pub part : List EpisodeEvent
    pub digest_part : List Digest32
    pub part_eq : slice start end buffer.events ≡ some part
    pub digest_eq : slice start end prepared.digests ≡ some digest_part
    pub content : HoldsEvents part digest_part previous sealed.body
    pub related : sealed.body.relations ≡ episode_relations request previous
    pub interval_eq : sealed.body.interval ≡ record {
      started_at_us =
          if start == 0 then buffer.started_at_us else time_or (first part) buffer.started_at_us;
      ended_at_us =
          if end == length buffer.events
          then request.ended_at_us
          else time_or (last part) request.ended_at_us;
      recorded_at_us = request.as_of_us;
    }
    pub atom : IsAtom ext policy sealed.body
    pub sized : encoded_size_bytes ext sealed.body ≡ ok sealed.canonical_size_bytes
    pub named : atom_id ext sealed.body ≡ ok sealed.atom_id
    pub measured :
        sealed.target_size_exceeded ≡ ltb policy.atom_target_bytes sealed.canonical_size_bytes

  pub seal_episode_range-IsSealed :
      (start end : ℕ) (previous : Option AtomId) (sealed : SealedEpisode)
      → seal_episode_range ext policy buffer request prepared start end previous ≡ ok sealed
      → IsSealed start end previous sealed
  unfolding seal_episode_range
  seal_episode_range-IsSealed start end previous sealed h =
      let (part, a, h₁) = >>=-eq-ok (ok_or (slice start end buffer.events) _) _ h in
      let (digest_part, b, h₂) = >>=-eq-ok (ok_or (slice start end prepared.digests) _) _ h₁ in
      let (digest, c, h₃) = >>=-eq-ok (policy_digest ext policy) _ h₂ in
      let (body, d, h₄) =
        >>=-eq-ok (build_episode_body buffer request digest part digest_part _ _ previous) _ h₃ in
      let (e, h₅) = >>-eq-ok (validate_memory_atom_body ext policy body) _ h₄ in
      let (size, f, h₆) = >>=-eq-ok (encoded_size_bytes ext body) _ h₅ in
      let (id, g, h₇) = >>=-eq-ok (atom_id ext body) _ h₆ in
      let (content, interval, related) =
        build_episode_body-HoldsEvents buffer request digest part digest_part _ _ previous body d in
      subst (IsSealed start end previous) (ok_inj h₇) (record {
        part = part;
        digest_part = digest_part;
        part_eq = ok_or-eq-ok _ _ a;
        digest_eq = ok_or-eq-ok _ _ b;
        content = content;
        related = related;
        interval_eq = interval;
        atom = validate_memory_atom_body-IsAtom ext policy body e;
        sized = f;
        named = g;
        measured = refl;
      })

take_all : {A : Type 0} (n : ℕ) (xs : List A) → n ≡ length xs → take n xs ≡ xs
take_all zero [] h = refl
take_all zero (x ∷ xs) h = absurd (omega arith)
take_all (suc n) [] h = refl
take_all (suc n) (x ∷ xs) h = ap (λ ys. x ∷ ys) (take_all n xs (omega arith))

slice_all : {A : Type 0} (n : ℕ) (xs ys : List A) → n ≡ length xs → slice 0 n xs ≡ some ys → ys ≡ xs
unfolding slice
slice_all n xs ys h e =
    let low = le→leb 0 n (omega arith) in
    let high = le→leb n (length xs) (omega arith) in
    let found : some (take (n - 0) xs) ≡ some ys = rw (low, high) at e in
    sym (some_inj found) ∙ take_all (n - 0) xs (omega arith)

within :
    (exceeded : Bool) (size target : ℕ)
    → exceeded ≡ false
    → exceeded ≡ ltb target size
    → size ≤ target
within exceeded size target h e = ground arith

module _ (ext : Externals) (policy : Policy) (buffer : EpisodeBuffer)
    (request : SealEpisodeRequest) where
  -- One episode for all the events of the buffer.
  pub record IsWhole (sealed : SealedEpisode) : Type 0 where
    pub input : IsEpisodeInput buffer request
    pub prepared : PreparedEpisodeEvents
    pub prepare_eq : prepare ext buffer.events ≡ ok prepared
    pub content : HoldsEvents buffer.events prepared.digests buffer.continues sealed.body
    pub related : sealed.body.relations ≡ episode_relations request buffer.continues
    pub interval_eq : sealed.body.interval ≡ record {
      started_at_us = buffer.started_at_us;
      ended_at_us = request.ended_at_us;
      recorded_at_us = request.as_of_us;
    }
    pub atom : IsAtom ext policy sealed.body
    pub sized : encoded_size_bytes ext sealed.body ≡ ok sealed.canonical_size_bytes
    pub named : atom_id ext sealed.body ≡ ok sealed.atom_id
    pub fits : sealed.canonical_size_bytes ≤ policy.atom_target_bytes

  at_end : (n : ℕ) → (n == n) ≡ true
  at_end n = ground arith

  range-IsWhole :
      (prepared : PreparedEpisodeEvents) (sealed : SealedEpisode)
      → IsEpisodeInput buffer request
      → prepare ext buffer.events ≡ ok prepared
      → sealed.target_size_exceeded ≡ false
      → IsSealed ext policy buffer request prepared 0 (length buffer.events) buffer.continues sealed
      → IsWhole sealed
  range-IsWhole prepared sealed input e f s =
      let events_eq = slice_all (length buffer.events) buffer.events s.part refl s.part_eq in
      let digests_eq =
        slice_all (length buffer.events) prepared.digests s.digest_part
          (sym (length-prepare ext buffer.events prepared e)) s.digest_eq in
      record {
        input = input;
        prepared = prepared;
        prepare_eq = e;
        content =
            subst₂ (λ events digests. HoldsEvents events digests buffer.continues sealed.body)
              events_eq digests_eq s.content;
        related = s.related;
        interval_eq =
            s.interval_eq
            ∙ ap
                (λ (b : Bool). record {
                  started_at_us = buffer.started_at_us;
                  ended_at_us =
                      if b then request.ended_at_us else time_or (last s.part) request.ended_at_us;
                  recorded_at_us = request.as_of_us;
                })
                (at_end (length buffer.events));
        atom = s.atom;
        sized = s.sized;
        named = s.named;
        fits = within _ _ _ f s.measured;
      }

  -- An episode that `seal_episode` seals has an input as `validate_episode_input` wants it; its body holds
  -- the content of all the events of the buffer in order, the digest of each, their first and last sequence,
  -- the episode that the buffer continues and its relations; it spans from the start of the buffer to the
  -- end of the request; it is a valid atom; its size and its identifier are those of the body; and the size
  -- is within the target.
  pub seal_episode-IsWhole :
      (sealed : SealedEpisode) → seal_episode ext policy buffer request ≡ ok sealed → IsWhole sealed
  unfolding seal_episode
  seal_episode-IsWhole sealed h =
      let (a, h₁) = >>-eq-ok (validate_poc_v1 policy) _ h in
      let (b, h₂) = >>-eq-ok (validate_episode_input ext policy buffer request) _ h₁ in
      let (prepared, c, h₃) = >>=-eq-ok (prepare ext buffer.events) _ h₂ in
      let (made, d, h₄) =
        >>=-eq-ok
          (seal_episode_range ext policy buffer request prepared 0 (length buffer.events)
            buffer.continues)
          _ h₃ in
      let (e, h₅) = reject_if-eq-ok made.target_size_exceeded _ _ h₄ in
      subst IsWhole (ok_inj h₅) (
        range-IsWhole prepared made
          (validate_episode_input-IsEpisodeInput ext policy buffer request b) c e
          (seal_episode_range-IsSealed ext policy buffer request prepared 0 (length buffer.events)
            buffer.continues made d))
