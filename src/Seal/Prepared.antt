-- ===== src/Seal/Prepared.antt =====
-- crates/naome-memory-core/src/seal.rs: `PreparedEpisodeEvents`, the digests of the events and the running
-- totals of their sizes and of the substantive ones.
use naome_memory.Base.{
  ℕ, List, [], ◌∷◌, Option, none, some, length, get_elem?, checked_add, checked_sub, if◌then◌else◌,
}
use naome_memory.Error.{Result, ok, ok_or, ◌>>=◌, canonical_encoding}
use naome_memory.Canonical.{Serialized, canonical_binary}
use naome_memory.Atom.{Digest32}
use naome_memory.Externals.{Externals, hash_prefixed}
use naome_memory.Digests.{domain, checked_total}
use naome_memory.Seal.Types.{EpisodeEvent}
use naome_memory.Seal.Input.{is_substantive}

pub record PreparedEpisodeEvents : Type 0 where
  pub digests : List Digest32
  pub cumulative_body_bytes : List ℕ
  pub cumulative_substantive : List ℕ

unfoldable pub framed_canonical_size : Serialized → Result ℕ
framed_canonical_size serialized = do
  bytes ← canonical_binary serialized
  ok_or (checked_add (length bytes) 8) (canonical_encoding "framed canonical size overflowed u64")

-- `.as_ref().map(framed_canonical_size).transpose()?`, then `unwrap_or(0)`
abbrev pub framed_or_zero {ℓ} : {A : Type ℓ} → (A → Serialized) → Option A → Result ℕ
unfolding framed_canonical_size
framed_or_zero serialize none = ok 0
framed_or_zero serialize (some a) = framed_canonical_size (serialize a)

module _ (ext : Externals) where
  unfoldable pub event_digest : EpisodeEvent → Result Digest32
  unfolding hash_prefixed
  event_digest event = do
    bytes ← canonical_binary (ext.event_value event)
    ok (hash_prefixed ext (domain "naome-memory:event:v1") bytes)

  -- What one event adds to the bytes of a body.
  unfoldable pub event_body_bytes : EpisodeEvent → Digest32 → Result ℕ
  unfolding framed_canonical_size checked_total
  event_body_bytes event digest = do
    own ← framed_canonical_size (ext.digest_value digest)
    observation ← framed_or_zero ext.observation_value event.observation
    interpretation ← framed_or_zero ext.interpretation_value event.interpretation
    belief ← framed_or_zero ext.belief_value event.belief
    decision ← framed_or_zero ext.decision_value event.decision
    action ← framed_or_zero ext.action_value event.action
    checked_total "episode event size overflowed u64" own
        (observation ∷ interpretation ∷ belief ∷ decision ∷ action ∷ [])

  -- The loop, after events of so many bytes and so many substantive ones: what it pushes.
  unfoldable pub prepare_from : ℕ → ℕ → List EpisodeEvent → Result PreparedEpisodeEvents
  unfolding event_digest event_body_bytes
  prepare_from bytes substantive [] =
      ok (record { digests = []; cumulative_body_bytes = []; cumulative_substantive = [] })
  prepare_from bytes substantive (event ∷ events) = do
    digest ← event_digest event
    body_bytes ← event_body_bytes event digest
    total ←
        ok_or (checked_add bytes body_bytes)
          (canonical_encoding "episode event bytes overflowed u64")
    substantive_total ←
        ok_or (checked_add substantive (if is_substantive event then 1 else 0))
          (canonical_encoding "episode substantive event count overflowed usize")
    rest ← prepare_from total substantive_total events
    ok (record {
      digests = digest ∷ rest.digests;
      cumulative_body_bytes = total ∷ rest.cumulative_body_bytes;
      cumulative_substantive = substantive_total ∷ rest.cumulative_substantive;
    })

  -- `PreparedEpisodeEvents::new`
  unfoldable pub prepare : List EpisodeEvent → Result PreparedEpisodeEvents
  unfolding prepare_from
  prepare events = do
    rest ← prepare_from 0 0 events
    ok (record {
      digests = rest.digests;
      cumulative_body_bytes = 0 ∷ rest.cumulative_body_bytes;
      cumulative_substantive = 0 ∷ rest.cumulative_substantive;
    })

unfoldable pub range_body_bytes : PreparedEpisodeEvents → ℕ → ℕ → Result ℕ
range_body_bytes prepared start end = do
  start_bytes ←
      ok_or (get_elem? prepared.cumulative_body_bytes start)
        (canonical_encoding "episode size range start failed")
  end_bytes ←
      ok_or (get_elem? prepared.cumulative_body_bytes end)
        (canonical_encoding "episode size range end failed")
  ok_or (checked_sub end_bytes start_bytes) (canonical_encoding "episode size range was inverted")
