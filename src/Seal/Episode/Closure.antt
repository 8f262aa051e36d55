-- ===== src/Seal/Episode/Closure.antt =====
-- crates/naome-memory-core/src/seal.rs: what `validate_episode_chain_closure` accepts.
use naome_memory.Base.{
  ℕ, Bool, inl, inr, zero, suc, ◌+◌, ◌-◌, ◌≤◌, ◌≡◌, ◌≢◌, ◌∙◌, refl, sym, ap, subst, true, false,
  not, ◌||◌, ◌&&◌, List, [], ◌∷◌, ◌++◌, Option, none, some, ltb, leb, ◌==◌, length, take, drop,
  nats_eq→eq, checked_add, arith, Bool-cases, not-false, &&_true, is_nil, leb→le, some_inj,
}
use naome_memory.Error.{
  ok, ok_or, >>=-eq-ok, >>-eq-ok, reject_if-eq-ok, reject_if-last, ok_or-eq-ok, ok_inj,
}
use naome_memory.Policy.{Policy}
use naome_memory.Atom.{Digest32, AtomId, EpisodePayload, MemoryPayload}
use naome_memory.Externals.{Externals}
use naome_memory.Digests.{atom_id, encoded_size_bytes}
use naome_memory.Seal.Types.{EpisodeEvent, EpisodeBuffer, SealedEpisode, SealedEpisodeChain}
use naome_memory.Seal.Prepared.{PreparedEpisodeEvents}
use naome_memory.Seal.Episode.{
  slice, first, last, same_id, validate_link, validate_episode_link, validate_links_from,
  validate_episode_chain_closure,
}

drop_nil : {A : Type 0} (k : ℕ) → ◌≡◌ {A = List A} (drop k []) []
drop_nil zero = refl
drop_nil (suc k) = refl

drop_again : {A : Type 0} (k c : ℕ) (xs : List A) → drop k (drop c xs) ≡ drop (c + k) xs
drop_again k zero xs = ap (λ n. drop n xs) (omega arith)
drop_again k (suc c) [] = drop_nil k ∙ sym (drop_nil (suc c + k))
drop_again k (suc c) (x ∷ xs) =
    let e : suc (c + k) ≡ suc c + k = omega arith in drop_again k c xs ∙ ap (λ n. drop n (x ∷ xs)) e

take-drop : {A : Type 0} (k : ℕ) (xs : List A) → xs ≡ take k xs ++ drop k xs
take-drop zero xs = refl
take-drop (suc k) [] = refl
take-drop (suc k) (x ∷ xs) = ap (λ ys. x ∷ ys) (take-drop k xs)

pub same_id-eq : (a b : Option AtomId) → same_id a b ≡ true → a ≡ b
same_id-eq none none h = refl
same_id-eq none (some b) h = cc
same_id-eq (some a) none h = cc
same_id-eq (some a) (some b) h = ground arith

-- What `get` gives of a range, and of the list from its start on.
pub slice-cut :
    {A : Type 0} (start end : ℕ) (xs ys : List A)
    → slice start end xs ≡ some ys
    → (start ≤ end) × (end ≤ length xs) × (drop start xs ≡ ys ++ drop end xs)
unfolding slice
slice-cut start end xs ys h = elim (Bool-cases (leb start end && leb end (length xs))) [
  | inl y ↦
      let (low, high) = &&_true (leb start end) (leb end (length xs)) y in
      let order = leb→le start end low in
      let found : take (end - start) (drop start xs) ≡ ys = some_inj (rw y at h) in
      (
        order,
        leb→le end (length xs) high,
        take-drop (end - start) (drop start xs)
            ∙ ap (λ zs. zs ++ drop (end - start) (drop start xs)) found
            ∙ ap (λ zs. ys ++ zs)
                (drop_again (end - start) start xs ∙ ap (λ n. drop n xs) (omega arith)),
      )
  | inr n ↦ let bad = rw n at h in cc
]

-- The tests of one episode that passed.
passed :
    (a b c d : Bool)
    → (not a || (not b || (not c || not d))) ≡ false
    → (a ≡ true) × (b ≡ true) × (c ≡ true) × (d ≡ true)
passed a b c d h = ground arith

small_enough :
    (n size target maximum : ℕ)
    → (not (n == size) || (ltb target n || ltb maximum n)) ≡ false
    → (n ≡ size) × (n ≤ target) × (n ≤ maximum)
small_enough n size target maximum h = ground arith

same_number : (a b : ℕ) → (a == b) ≡ true → a ≡ b
same_number a b h = ground arith

drop_all : {A : Type 0} (k : ℕ) (xs : List A) → length xs ≤ k → drop k xs ≡ []
drop_all zero [] h = refl
drop_all zero (x ∷ xs) h = absurd (omega arith)
drop_all (suc k) [] h = refl
drop_all (suc k) (x ∷ xs) h = drop_all k xs (omega arith)

complete :
    (cursor count events : ℕ) (episodes : List SealedEpisode)
    → (not (cursor == events) || (not (count == events) || is_nil episodes)) ≡ false
    → (cursor ≡ events) × (count ≡ events) × (episodes ≢ [])
complete cursor count events [] h = ground arith
complete cursor count events (x ∷ xs) h = (ground arith, ground arith, λ e. cc)

module _ (ext : Externals) (policy : Policy) where
  -- An episode of these events and digests, after the episode `previous`.
  pub record IsLink (previous : Option AtomId) (events : List EpisodeEvent)
      (digests : List Digest32) (episode : SealedEpisode) : Type 0 where
    pub payload : EpisodePayload
    pub first_event : EpisodeEvent
    pub last_event : EpisodeEvent
    pub payload_eq : episode.body.payload ≡ MemoryPayload.episode payload
    pub continued : payload.continues ≡ previous
    pub first_eq : first events ≡ some first_event
    pub last_eq : last events ≡ some last_event
    pub starts : payload.event_sequence_start ≡ first_event.sequence
    pub ends : payload.event_sequence_end ≡ last_event.sequence
    pub traced : episode.body.provenance.source_event_digests ≡ digests
    pub sized : encoded_size_bytes ext episode.body ≡ ok episode.canonical_size_bytes
    pub fits_target : episode.canonical_size_bytes ≤ policy.atom_target_bytes
    pub fits_maximum : episode.canonical_size_bytes ≤ policy.atom_hard_max_bytes
    pub named : atom_id ext episode.body ≡ ok episode.atom_id

  -- The events and their digests are cut into consecutive parts, one for each episode.
  abbrev pub IsClosed :
      List EpisodeEvent → List Digest32 → Option AtomId → List SealedEpisode → Type 0
  IsClosed events digests previous [] = (events ≡ []) × (digests ≡ [])
  IsClosed events digests previous (episode ∷ episodes) =
      (part : List EpisodeEvent) × (rest : List EpisodeEvent) × (digest_part : List Digest32)
      × (digest_rest : List Digest32) × (events ≡ part ++ rest)
      × (digests ≡ digest_part ++ digest_rest)
      × IsLink previous part digest_part episode
      × IsClosed rest digest_rest (some episode.atom_id) episodes

  validate_link-IsLink :
      (previous : Option AtomId) (episode : SealedEpisode) (events : List EpisodeEvent)
      (digests : List Digest32) (payload : EpisodePayload)
      → episode.body.payload ≡ MemoryPayload.episode payload
      → validate_link ext policy previous episode events digests payload ≡ ok tt
      → IsLink previous events digests episode
  unfolding validate_link
  validate_link-IsLink previous episode events digests payload e h =
      let (first_event, f, h₁) = >>=-eq-ok (ok_or (first events) _) _ h in
      let (last_event, l, h₂) = >>=-eq-ok (ok_or (last events) _) _ h₁ in
      let (closes, h₃) = reject_if-eq-ok _ _ _ h₂ in
      let (size, s, h₄) = >>=-eq-ok (encoded_size_bytes ext episode.body) _ h₃ in
      let (small, h₅) =
        reject_if-eq-ok
          (not (episode.canonical_size_bytes == size)
            || (ltb policy.atom_target_bytes episode.canonical_size_bytes
                || ltb policy.atom_hard_max_bytes episode.canonical_size_bytes))
          _ _ h₄ in
      let (id, i, h₆) = >>=-eq-ok (atom_id ext episode.body) _ h₅ in
      let (a, b, c, d) = passed _ _ _ _ closes in
      let (same, target, maximum) = small_enough episode.canonical_size_bytes size _ _ small in
      record {
        payload = payload;
        first_event = first_event;
        last_event = last_event;
        payload_eq = e;
        continued = same_id-eq payload.continues previous c;
        first_eq = ok_or-eq-ok (first events) _ f;
        last_eq = ok_or-eq-ok (last events) _ l;
        starts = same_number _ _ a;
        ends = same_number _ _ b;
        traced = nats_eq→eq _ digests d;
        sized = s ∙ ap ok (sym same);
        fits_target = target;
        fits_maximum = maximum;
        named =
            i
            ∙ ap ok (
                sym (
                  same_number episode.atom_id id
                    (not-false (episode.atom_id == id) (reject_if-last _ _ h₆))));
      }

  module _ (buffer : EpisodeBuffer) (prepared : PreparedEpisodeEvents) where
    -- An episode that passes is a link of the part of the events that it covers.
    validate_episode_link-IsLink :
        (cursor end : ℕ) (previous : Option AtomId) (episode : SealedEpisode)
        (payload : MemoryPayload)
        → episode.body.payload ≡ payload
        → validate_episode_link ext policy buffer prepared cursor previous episode payload ≡ ok end
        → (part : List EpisodeEvent) × (digest_part : List Digest32) × (slice cursor end
              buffer.events
            ≡ some part)
          × (slice cursor end prepared.digests ≡ some digest_part)
          × IsLink previous part digest_part episode
    unfolding validate_episode_link
    validate_episode_link-IsLink cursor end previous episode (MemoryPayload.semantic payload) e h =
        cc
    validate_episode_link-IsLink cursor end previous episode (MemoryPayload.episode payload) e h =
        let (source_end, a, h₁) = >>=-eq-ok (ok_or (checked_add cursor _) _) _ h in
        let (part, b, h₂) = >>=-eq-ok (ok_or (slice cursor source_end buffer.events) _) _ h₁ in
        let (digest_part, c, h₃) =
          >>=-eq-ok (ok_or (slice cursor source_end prepared.digests) _) _ h₂ in
        let (d, h₄) =
          >>-eq-ok (validate_link ext policy previous episode part digest_part payload) _ h₃ in
        let at_end = ok_inj h₄ in
        (
          part,
          digest_part,
          subst (λ n. slice cursor n buffer.events ≡ some part) at_end (ok_or-eq-ok _ _ b),
          subst (λ n. slice cursor n prepared.digests ≡ some digest_part) at_end
              (ok_or-eq-ok _ _ c),
          validate_link-IsLink previous episode part digest_part payload e d,
        )

    validate_links_from-IsClosed :
        (episodes : List SealedEpisode) (cursor end : ℕ) (previous : Option AtomId)
        → validate_links_from ext policy buffer prepared cursor previous episodes ≡ ok end
        → end ≡ length buffer.events
        → length prepared.digests ≡ length buffer.events
        → IsClosed (drop cursor buffer.events) (drop cursor prepared.digests) previous episodes
    unfolding validate_links_from
    validate_links_from-IsClosed [] cursor end previous h at_end same =
        let here : cursor ≡ length buffer.events = ok_inj h ∙ at_end in
        (
          drop_all cursor buffer.events (omega arith),
          drop_all cursor prepared.digests (omega arith),
        )
    validate_links_from-IsClosed (episode ∷ episodes) cursor end previous h at_end same =
        let (next, a, h₁) =
          >>=-eq-ok
            (validate_episode_link ext policy buffer prepared cursor previous episode
              episode.body.payload)
            _ h in
        let (part, digest_part, b, c, link) =
          validate_episode_link-IsLink cursor next previous episode episode.body.payload refl a in
        (
          part,
          drop next buffer.events,
          digest_part,
          drop next prepared.digests,
          (slice-cut cursor next buffer.events part b).2,
          (slice-cut cursor next prepared.digests digest_part c).2,
          link,
          validate_links_from-IsClosed episodes next end (some episode.atom_id) h₁ at_end same,
        )

    -- What the closure accepts, of as many digests as events: there is an episode, the count of the source is
    -- that of the events, and the events and their digests are cut into consecutive parts, one for each
    -- episode, whose payload, digests, size and identifier are those of its part and of its body, which
    -- continues the episode before it, and whose size is within the target and the maximum.
    pub validate_episode_chain_closure-IsClosed :
        (chain : SealedEpisodeChain)
        → length prepared.digests ≡ length buffer.events
        → validate_episode_chain_closure ext policy buffer prepared chain ≡ ok tt
        → (chain.episodes ≢ [])
          × (chain.source_event_count ≡ length buffer.events)
          × IsClosed buffer.events prepared.digests buffer.continues chain.episodes
    unfolding validate_episode_chain_closure
    validate_episode_chain_closure-IsClosed chain same h =
        let (cursor, a, h₁) =
          >>=-eq-ok
            (validate_links_from ext policy buffer prepared 0 buffer.continues chain.episodes) _
            h in
        let (at_end, count, some_episode) = complete _ _ _ chain.episodes (reject_if-last _ _ h₁) in
        (
          some_episode,
          count,
          validate_links_from-IsClosed chain.episodes 0 cursor buffer.continues a at_end same,
        )
