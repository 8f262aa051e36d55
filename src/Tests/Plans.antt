-- ===== src/Tests/Plans.antt =====
-- A cohort of two episodes, and the plan that retires it.
use naome_memory.Base.{
  ◌≢◌, none, ◌≡◌, ◌≤◌, ◌↔◌, refl, String, List, [], ◌∷◌, some, none, All, Has, arith, nats_eq,
  string_ord, sort_by, true, false,
}
use naome_memory.Error.{ok}
use naome_memory.Canonical.{canonical_binary}
use naome_memory.Fixed.{scale}
use naome_memory.Policy.{poc_v1}
use naome_memory.Atom.{
  MemoryKind, semantic_and_exact_allowed, episodic_long_term, header_only, present, forgotten,
}
use naome_memory.Retirement.Types.{RetirementSnapshot, RetirementPlan}
use naome_memory.Retirement.Score.{bodies_of, consolidation_score}
use naome_memory.Retirement.Score.Bounds.{BelowPairs, Attained, consolidation_score-cohesion}
use naome_memory.Retirement.Consensus.{agreed}
use naome_memory.Retirement.Consensus.Support.{occurrences, agreed_iff}
use naome_memory.Retirement.Cohort.{validate_candidates, by_atom_id}
use naome_memory.Retirement.Cohort.Valid.{IsRetiring, Increasing, validate_candidates-IsCohort}
use naome_memory.Retirement.Lottery.Uniform.{Accepts}
use naome_memory.Retirement.Plan.{plan_retirement}
use naome_memory.Retirement.Plan.Total.{plan_retirement_total}
use naome_memory.Retirement.Plan.Decisions.{IsPlan, plan_retirement-IsPlan}
use naome_memory.Tests.Samples.{toy, retiring}

abbrev pub snapshot : RetirementSnapshot
snapshot = record {
  contract_version = "retirement-snapshot-v1";
  memory_space_id = "space-a";
  cohort_day = 7;
  as_of_us = 691_200_000_000;
  atoms = retiring;
}

consolidation_score-cohesion_example :
    BelowPairs poc_v1
      (consolidation_score poc_v1 retiring (0 ∷ 1 ∷ [])).cohesion
      (bodies_of retiring (0 ∷ 1 ∷ []))
    × Attained poc_v1 scale
        (consolidation_score poc_v1 retiring (0 ∷ 1 ∷ [])).cohesion
        (bodies_of retiring (0 ∷ 1 ∷ []))
    × ((consolidation_score poc_v1 retiring (0 ∷ 1 ∷ [])).total ≤ scale)
consolidation_score-cohesion_example = consolidation_score-cohesion poc_v1 retiring (0 ∷ 1 ∷ [])

abbrev values : List String
values = "b" ∷ "a" ∷ "b" ∷ []

abbrev value : String
value = "b"

agreed_iff_example : Has value (agreed values 2) ↔ (2 ≤ occurrences value values)
agreed_iff_example = agreed_iff values 2 value (omega arith)

-- One of the two episodes is kept exactly, and the other is forgotten.
abbrev pub plan : RetirementPlan
plan = record {
  contract_version = "retirement-plan-v1";
  policy_id = "poc-v1";
  policy_digest = 24;
  seed = 7;
  memory_space_id = "space-a";
  cohort_day = 7;
  as_of_us = 691200000000;
  input_set_digest = 34;
  rng_identifier = "chacha20-rand_chacha-0.3/partial-fisher-yates-v1";
  episodic_population_digest = 36;
  episodic_population_count = 2;
  episodic_winner_budget = 1;
  episodic_winner_bytes = 13;
  semantic_count_budget = 1;
  semantic_body_bytes = 0;
  semantic_decisions = [];
  semantic_atoms = [];
  episodic_winners = 31 ∷ [];
  decisions =
      record {
        atom_id = 31;
        semantic_atom_ids = [];
        exact_retained = true;
        exact_artifact_digests = 3 ∷ [];
        forget_episode_body = false;
      }
      ∷ record {
        atom_id = 32;
        semantic_atom_ids = [];
        exact_retained = false;
        exact_artifact_digests = [];
        forget_episode_body = true;
      }
      ∷ [];
  projected_post_state = record {
    memory_space_id = "space-a";
    source_atoms =
        record {
          atom_id = 31;
          atom_kind = MemoryKind.episode;
          repository_id = some "repo-a";
          task_id = some "task-a";
          agent_id = some "agent-a";
          session_id = some "session-a";
          recorded_at_us = 10;
          header_body_digest = 31;
          header_body_bytes = 10;
          retention_permission = semantic_and_exact_allowed;
          provenance_digest = 28;
          stored_body_digest = some 31;
          retention_tier = episodic_long_term;
          content_status = present;
          expires_at_us = none;
          superseded_by = none;
          feedback_positive = 1;
          feedback_negative = 0;
          retrieval_count = 0;
          retirement_run_bound = true;
          search_projection_present = true;
          pinned_artifact_digests = 3 ∷ [];
        }
        ∷ record {
          atom_id = 32;
          atom_kind = MemoryKind.episode;
          repository_id = some "repo-a";
          task_id = some "task-a";
          agent_id = some "agent-a";
          session_id = some "session-b";
          recorded_at_us = 20;
          header_body_digest = 32;
          header_body_bytes = 11;
          retention_permission = semantic_and_exact_allowed;
          provenance_digest = 28;
          stored_body_digest = none;
          retention_tier = header_only;
          content_status = forgotten;
          expires_at_us = none;
          superseded_by = none;
          feedback_positive = 1;
          feedback_negative = 0;
          retrieval_count = 0;
          retirement_run_bound = true;
          search_projection_present = false;
          pinned_artifact_digests = [];
        }
        ∷ [];
    semantic_atoms = [];
  };
  projected_state_digest = 33;
}

pub run : plan_retirement toy 1 poc_v1 7 snapshot ≡ ok (some plan)
unfolding plan_retirement canonical_binary nats_eq
run = refl

plan_retirement-IsPlan_example : IsPlan toy poc_v1 snapshot plan
plan_retirement-IsPlan_example = plan_retirement-IsPlan toy poc_v1 1 7 snapshot plan run

candidates_valid : validate_candidates toy snapshot poc_v1 (sort_by by_atom_id retiring) ≡ ok tt
unfolding validate_candidates canonical_binary nats_eq sort_by
candidates_valid = refl

validate_candidates-IsCohort_example :
    All (IsRetiring toy snapshot poc_v1) (sort_by by_atom_id retiring)
    × Increasing toy snapshot poc_v1 (sort_by by_atom_id retiring)
validate_candidates-IsCohort_example =
    validate_candidates-IsCohort toy snapshot poc_v1 retiring candidates_valid

seed-Accepts : Accepts 1 2 (toy.next_u64 7)
seed-Accepts position = (0, omega arith, omega arith)

plan_retirement_total_example : plan_retirement toy 1 poc_v1 7 snapshot ≢ ok none
plan_retirement_total_example = plan_retirement_total toy 1 poc_v1 7 snapshot seed-Accepts
