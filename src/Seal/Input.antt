-- ===== src/Seal/Input.antt =====
-- crates/naome-memory-core/src/seal.rs: `validate_episode_input`. Its `validate_scope` makes the checks of
-- validation.rs in the same order.
use naome_memory.Base.{
  ℕ, String, Bool, true, false, not, ◌&&◌, ◌||◌, List, [], ◌∷◌, Option, none, some, ltb, ◌==◌,
  str_eq, str_empty, anyb, is_nil, is_some, checked_add,
}
use naome_memory.Error.{
  Result, ok, reject_if, ok_or, each, ◌>>=◌, ◌>>◌, empty_field, empty_episode,
  invalid_time_interval, non_contiguous_events, event_scope_mismatch, event_time_out_of_range,
  non_monotonic_event_time, artifact_too_large, insufficient_episode_content,
}
use naome_memory.Policy.{Policy}
use naome_memory.Atom.{MemoryScope, ArtifactRef}
use naome_memory.Externals.{Externals}
use naome_memory.Validation.{validate_scope, validate_inline_payload}
use naome_memory.Seal.Types.{EpisodeEvent, EpisodeBuffer, SealEpisodeRequest}

abbrev pub same_text : Option String → Option String → Bool
same_text none none = true
same_text none (some right) = false
same_text (some left) none = false
same_text (some left) (some right) = str_eq left right

-- `event.scope == buffer.scope`
unfoldable pub same_scope : MemoryScope → MemoryScope → Bool
same_scope left right =
    str_eq left.memory_space_id right.memory_space_id
    && (same_text left.repository_id right.repository_id
        && (same_text left.task_id right.task_id
            && (same_text left.agent_id right.agent_id && str_eq left.session_id right.session_id)))

-- What makes an event substantive.
abbrev pub is_substantive : EpisodeEvent → Bool
is_substantive event = is_some event.observation || (is_some event.decision || is_some event.action)

-- `if let Some(previous_at_us) = previous_at_us && event.at_us < previous_at_us`
abbrev pub validate_order : Option ℕ → EpisodeEvent → Result (Unit {0})
validate_order none event = ok tt
validate_order (some previous_at_us) event =
    reject_if (ltb event.at_us previous_at_us)
      (non_monotonic_event_time event.sequence previous_at_us event.at_us)

module _ (buffer : EpisodeBuffer) (request : SealEpisodeRequest) where
  -- One turn of the loop over the events; the next sequence that is expected.
  unfoldable pub validate_event : ℕ → Option ℕ → EpisodeEvent → Result ℕ
  unfolding same_scope
  validate_event expected previous_at_us event = do
    reject_if (not (event.sequence == expected)) (non_contiguous_events expected event.sequence)
    reject_if (not (same_scope event.scope buffer.scope)) (event_scope_mismatch event.sequence)
    reject_if (ltb event.at_us buffer.started_at_us || ltb request.ended_at_us event.at_us)
        (event_time_out_of_range event.sequence)
    validate_order previous_at_us event
    ok_or (checked_add expected 1) (non_contiguous_events expected event.sequence)

  unfoldable pub validate_events : ℕ → Option ℕ → List EpisodeEvent → Result (Unit {0})
  unfolding validate_event
  validate_events expected previous_at_us [] = ok tt
  validate_events expected previous_at_us (event ∷ events) = do
    next ← validate_event expected previous_at_us event
    validate_events next (some event.at_us) events

-- `buffer.events[0].sequence`, of a list that is not empty.
abbrev pub first_sequence : List EpisodeEvent → ℕ
first_sequence [] = 0
first_sequence (event ∷ events) = event.sequence

module _ (ext : Externals) (policy : Policy) where
  unfoldable pub validate_request_artifact : ArtifactRef → Result (Unit {0})
  unfolding validate_inline_payload
  validate_request_artifact artifact = do
    reject_if (ltb policy.artifact_max_bytes artifact.size_bytes)
        (artifact_too_large artifact.size_bytes policy.artifact_max_bytes)
    validate_inline_payload ext policy artifact artifact.inline_payload

  -- `validate_artifacts` of seal.rs
  unfoldable pub validate_request_artifacts : List ArtifactRef → Result (Unit {0})
  unfolding validate_request_artifact each
  validate_request_artifacts = each validate_request_artifact

  unfoldable pub validate_episode_input : EpisodeBuffer → SealEpisodeRequest → Result (Unit {0})
  unfolding validate_scope validate_events validate_request_artifacts
  validate_episode_input buffer request = do
    validate_scope buffer.scope
    reject_if (str_empty request.trigger) (empty_field "trigger")
    reject_if (is_nil buffer.events) empty_episode
    reject_if
        (ltb request.ended_at_us buffer.started_at_us || ltb request.as_of_us request.ended_at_us)
        invalid_time_interval
    validate_events buffer request (first_sequence buffer.events) none buffer.events
    validate_request_artifacts request.artifacts
    reject_if
        (not (anyb is_substantive buffer.events)
          && (not (is_some request.outcome) && is_nil request.feedback))
        insufficient_episode_content
