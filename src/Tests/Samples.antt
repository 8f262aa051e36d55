-- ===== src/Tests/Samples.antt =====
-- Concrete externals, bodies and candidates, as in the fixtures of crates/naome-memory-core/src.
use naome_memory.Base.{
  ◌≡◌, refl, nats_eq, ℕ, ◌-◌, ◌%◌, String, List, [], ◌∷◌, none, some, length, str_codes, u64_max,
  true, false,
}
use naome_memory.Canonical.{value, string, null}
use naome_memory.Atom.{
  MemoryAtomBody, RetirementCandidate, AtomState, ArtifactRef, checkpoint, short_term,
  episodic_long_term, present, complete, semantic_and_exact_allowed, MemoryPayload, RetentionTier,
}
use naome_memory.Policy.{poc_v1}
use naome_memory.Validation.{validate_memory_atom_body}
use naome_memory.Canonical.{canonical_binary}
use naome_memory.Error.{ok}
use naome_memory.Externals.{Externals}
use naome_memory.Retrieval.Types.{RetrievalQuery, RetrievalCandidates}

-- The digest is the number of bytes, a body is encoded by its trigger, and the generator repeats.
abbrev pub toy : Externals
toy = record {
  sha256 = λ bytes. length bytes;
  next_u64 = λ seed n. u64_max - seed % 1000;
  policy_value = λ p. value null;
  body_value = λ b. value (string (str_codes b.trigger));
  provenance_value = λ p. value null;
  input_value = λ i. value null;
  population_value = λ p. value null;
  post_state_value = λ p. value null;
  ids_value = λ ids. value null;
  query_value = λ q. value null;
  event_value = λ e. value null;
  digest_value = λ d. value null;
  observation_value = λ o. value null;
  interpretation_value = λ i. value null;
  belief_value = λ b. value null;
  decision_value = λ d. value null;
  action_value = λ a. value null;
  plan_value = λ p. value null;
  decisions_value = λ d. value null;
  receipt_value = λ r. value null;
}

-- An embedded artifact of three bytes.
abbrev pub note : ArtifactRef
note = record {
  digest = 3;
  size_bytes = 3;
  media_type = "text/plain";
  retention_allowed = true;
  inline_payload = some (104 ∷ 105 ∷ 33 ∷ []);
}

-- An episode of one event in a session.
abbrev pub episode : String → String → ℕ → MemoryAtomBody
episode trigger session at_us = record {
  contract_version = "atom-v1";
  scope = record {
    memory_space_id = "space-a";
    repository_id = some "repo-a";
    task_id = some "task-a";
    agent_id = some "agent-a";
    session_id = session;
  };
  interval = record { started_at_us = at_us; ended_at_us = at_us; recorded_at_us = at_us };
  trigger = trigger;
  seal_reason = checkpoint;
  goal = none;
  plan = [];
  internal_state_before = [];
  internal_state_after = [];
  observations =
      record { at_us = at_us; source = "test"; content = "observed"; artifact_digest = some 3 }
      ∷ [];
  interpretations = [];
  beliefs = [];
  decisions = [];
  rejected_alternatives = [];
  actions = [];
  outcome = none;
  feedback = [];
  formation_signals = record {
    utility = 500_000;
    salience = 500_000;
    novelty = 500_000;
    uncertainty = 0;
  };
  topic_keys = "memory" ∷ [];
  entity_ids = "naome" ∷ [];
  outcome_class = none;
  goal_key = none;
  provenance = record { producer = "tests"; source_event_digests = 7 ∷ []; policy_digest = 24 };
  relations = [];
  artifacts = note ∷ [];
  retention_permission = semantic_and_exact_allowed;
  payload =
      MemoryPayload.episode
        (record { event_sequence_start = 0; event_sequence_end = 0; continues = none });
}

abbrev pub state_in : RetentionTier → AtomState
state_in tier = record {
  retention_tier = tier;
  content_status = present;
  expires_at_us = none;
  superseded_by = none;
  feedback_positive = 1;
  feedback_negative = 0;
  retrieval_count = 0;
  retirement_run_id = none;
}

abbrev pub first : MemoryAtomBody
first = episode "a" "session-a" 10

abbrev pub second : MemoryAtomBody
second = episode "bb" "session-b" 20

pub first_valid : validate_memory_atom_body toy poc_v1 first ≡ ok tt
unfolding validate_memory_atom_body canonical_binary nats_eq
first_valid = refl

pub second_valid : validate_memory_atom_body toy poc_v1 second ≡ ok tt
unfolding validate_memory_atom_body canonical_binary nats_eq
second_valid = refl

abbrev pub expiring : ℕ → AtomState
expiring at_us = record (state_in short_term) { expires_at_us = some at_us }

-- The two episodes as candidates of a retirement, and of a retrieval.
abbrev pub retiring : List RetirementCandidate
retiring =
    record {
      atom_id = 31;
      body_digest = 31;
      body = some first;
      state = expiring 604_800_000_010;
      integrity = complete;
      exact_package_bytes = 13;
    }
    ∷ record {
      atom_id = 32;
      body_digest = 32;
      body = some second;
      state = expiring 604_800_000_020;
      integrity = complete;
      exact_package_bytes = 14;
    }
    ∷ []

abbrev pub found : RetrievalCandidates
found = record {
  ranked =
      record {
        atom_id = 31;
        body = first;
        state = state_in short_term;
        lexical_score = 500_000;
        integrity = complete;
      }
      ∷ [];
  episodic_pool =
      record {
        atom_id = 32;
        body = second;
        state = state_in episodic_long_term;
        lexical_score = 0;
        integrity = complete;
      }
      ∷ [];
}

abbrev pub query : RetrievalQuery
query = record {
  contract_version = "retrieval-query-v1";
  memory_space_id = "space-a";
  repository_id = some "repo-a";
  memory_space_wide = false;
  as_of_us = 100;
  terms = "memory" ∷ [];
  topic_keys = "memory" ∷ [];
  entity_ids = [];
  k = some 5;
  spontaneous = some (record { seed = 7; budget = 2 });
}
