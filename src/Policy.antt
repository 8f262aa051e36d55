-- ===== src/Policy.antt =====
-- crates/naome-memory-core/src/policy.rs: the committed policy, and the check that admits no other.
use naome_memory.Base.{ℕ, String, ◌*◌, ◌≡◌, ite, if_neg, str_discrete}
use naome_memory.Fixed.{Ppm}
use naome_memory.Error.{Result, ok, err, policy_mismatch, err-ne-ok}
use native.Mathlib.Decide.{ℕ_discrete}

pub record Policy : Type 0 where
  pub policy_id : String
  pub contract_version : String
  pub stm_horizon_us : ℕ
  pub max_cohort_atoms : ℕ
  pub atom_target_bytes : ℕ
  pub atom_hard_max_bytes : ℕ
  pub inline_payload_max_bytes : ℕ
  pub artifact_max_bytes : ℕ
  pub exact_package_max_bytes : ℕ
  pub similarity_topic_weight : Ppm
  pub similarity_entity_weight : Ppm
  pub similarity_outcome_weight : Ppm
  pub cluster_similarity_threshold : Ppm
  pub min_semantic_sources : ℕ
  pub min_semantic_sessions : ℕ
  pub support_saturation_atoms : ℕ
  pub consolidation_support_weight : Ppm
  pub consolidation_diversity_weight : Ppm
  pub consolidation_utility_weight : Ppm
  pub consolidation_salience_weight : Ppm
  pub consolidation_cohesion_weight : Ppm
  pub consolidation_novelty_weight : Ppm
  pub consolidation_uncertainty_weight : Ppm
  pub consolidation_threshold : Ppm
  pub semantic_rate : Ppm
  pub semantic_count_max : ℕ
  pub semantic_body_budget_bytes : ℕ
  pub consensus_numerator : ℕ
  pub consensus_denominator : ℕ
  pub episodic_rate : Ppm
  pub episodic_count_max : ℕ
  pub episodic_pin_budget_bytes : ℕ
  pub retrieval_candidate_max : ℕ
  pub retrieval_default_k : ℕ
  pub retrieval_max_k : ℕ
  pub retrieval_lexical_weight : Ppm
  pub retrieval_semantic_weight : Ppm
  pub retrieval_entity_weight : Ppm
  pub retrieval_utility_weight : Ppm
  pub retrieval_recency_weight : Ppm
  pub retrieval_recency_horizon_us : ℕ
  pub flashback_budget_max : ℕ

abbrev day_us : ℕ
day_us = 24 * 60 * 60 * 1_000_000

-- `PolicyV1::poc_v1`
abbrev pub poc_v1 : Policy
poc_v1 = record {
  policy_id = "poc-v1";
  contract_version = "policy-v1";
  stm_horizon_us = 7 * day_us;
  max_cohort_atoms = 100_000;
  atom_target_bytes = 128 * 1024;
  atom_hard_max_bytes = 256 * 1024;
  inline_payload_max_bytes = 4 * 1024;
  artifact_max_bytes = 64 * 1024 * 1024;
  exact_package_max_bytes = 64 * 1024 * 1024;
  similarity_topic_weight = 600_000;
  similarity_entity_weight = 250_000;
  similarity_outcome_weight = 150_000;
  cluster_similarity_threshold = 650_000;
  min_semantic_sources = 3;
  min_semantic_sessions = 2;
  support_saturation_atoms = 10;
  consolidation_support_weight = 250_000;
  consolidation_diversity_weight = 200_000;
  consolidation_utility_weight = 200_000;
  consolidation_salience_weight = 150_000;
  consolidation_cohesion_weight = 100_000;
  consolidation_novelty_weight = 100_000;
  consolidation_uncertainty_weight = 150_000;
  consolidation_threshold = 550_000;
  semantic_rate = 20_000;
  semantic_count_max = 100;
  semantic_body_budget_bytes = 8 * 1024 * 1024;
  consensus_numerator = 2;
  consensus_denominator = 3;
  episodic_rate = 5_000;
  episodic_count_max = 25;
  episodic_pin_budget_bytes = 256 * 1024 * 1024;
  retrieval_candidate_max = 512;
  retrieval_default_k = 10;
  retrieval_max_k = 100;
  retrieval_lexical_weight = 450_000;
  retrieval_semantic_weight = 250_000;
  retrieval_entity_weight = 150_000;
  retrieval_utility_weight = 100_000;
  retrieval_recency_weight = 50_000;
  retrieval_recency_horizon_us = 365 * day_us;
  flashback_budget_max = 3;
}

unfoldable pub Policy-discrete : Discrete Policy
unfolding ℕ_discrete str_discrete
Policy-discrete = hlevel (ℕ_discrete, str_discrete)

-- `PolicyV1::validate_poc_v1`
unfoldable pub validate_poc_v1 : Policy → Result (Unit {0})
unfolding Policy-discrete
validate_poc_v1 policy = ite (Policy-discrete policy poc_v1) (ok tt) (err policy_mismatch)

-- Only the committed policy passes.
pub validate_poc_v1-eq-ok : (policy : Policy) → validate_poc_v1 policy ≡ ok tt → policy ≡ poc_v1
unfolding validate_poc_v1
validate_poc_v1-eq-ok policy h = elim (Policy-discrete policy poc_v1) [
  | yes e ↦ e
  | no n ↦ absurd (err-ne-ok (rw (if_neg _ n) at h))
]
