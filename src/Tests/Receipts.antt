-- ===== src/Tests/Receipts.antt =====
-- A store that applies the plan of Plans, the receipt that is issued, and its verification.
use naome_memory.Base.{ℕ, suc, ◌≡◌, refl, [], ◌∷◌, some, nats_eq, false}
use naome_memory.Error.{Result, ok, each}
use naome_memory.Canonical.{canonical_binary}
use naome_memory.Policy.{poc_v1}
use naome_memory.Retirement.Types.{RetirementPlan}
use naome_memory.Retirement.Plan.{plan_retirement}
use naome_memory.Receipt.Types.{
  InvariantStatus, passed, ApplyRetirementOutcome, ReceiptVerificationInputs, ProofReceipt,
  VerifiedReceipt,
}
use naome_memory.Digests.{policy_digest}
use naome_memory.Retirement.PostState.{post_state_digest}
use naome_memory.Receipt.Structure.Projected.{
  source_tests, verify_projected_post_state, ensure_source_state,
}
use naome_memory.Receipt.Structure.Evidence.{
  ensure_semantic_evidence, ensure_semantic_from, ensure_sources_from, ensure_ranked,
  ensure_dispositions_from,
}
use naome_memory.Receipt.Structure.{
  verify_plan_structure, ensure_sorted_unique_decisions, semantic_bytes_from, ensure_lottery,
}
use naome_memory.Receipt.{
  from_plan, normalize_artifacts, apply_retirement, apply_checked, issue_receipt, verify_receipt,
  plan_digest, decision_digest, recompute_receipt_id, run_id_of,
}
use naome_memory.Receipt.Accepted.{verify_receipt-apply_retirement}
use naome_memory.Receipt.Sound.{ClosesOver, verify_receipt-ClosesOver}
use naome_memory.Receipt.Structured.{IsStructured, verify_plan_structure-IsStructured}
use naome_memory.Tests.Samples.{toy}
use naome_memory.Tests.Plans.{snapshot, plan, run}

-- A store that counts the plans that it has applied.
abbrev apply_plan : ℕ → RetirementPlan → ℕ × Result ApplyRetirementOutcome
apply_plan count p = (
  suc count,
  ok (record {
    observed_input_digest = p.input_set_digest;
    state_digest = p.projected_state_digest;
    applied_decision_count = 2;
    semantic_atom_ids = [];
    episodic_atom_ids = p.episodic_winners;
    exact_artifact_digests = (31, 3 ∷ []) ∷ [];
    already_applied = false;
  }),
)

abbrev receipt : ProofReceipt
receipt = record {
  receipt_id = 31;
  authority = record {
    contract_version = "proof-receipt-v1";
    run_id = 63;
    memory_space_id = "space-a";
    cohort_day = 7;
    as_of_us = 691200000000;
    policy_id = "poc-v1";
    policy_digest = 24;
    seed = 7;
    input_set_digest = 34;
    rng_identifier = "chacha20-rand_chacha-0.3/partial-fisher-yates-v1";
    population_digest = 36;
    episodic_population_count = 2;
    episodic_winner_budget = 1;
    episodic_winner_bytes = 13;
    semantic_count_budget = 1;
    semantic_body_bytes = 0;
    plan_digest = 33;
    decision_digest = 38;
    state_digest = 33;
    closure = record {
      source_atom_ids = 31 ∷ 32 ∷ [];
      semantic_atom_ids = [];
      exact_episode_ids = 31 ∷ [];
      exact_artifact_digests = (31, 3 ∷ []) ∷ [];
    };
    invariants =
        ("budgets_structurally_bounded", InvariantStatus.verified)
        ∷ ("plan_structure_verified", InvariantStatus.verified)
        ∷ ("repository_outcome_closure_verified", InvariantStatus.verified)
        ∷ [];
    overall_status = passed;
  };
}

structured : verify_plan_structure toy plan ≡ ok tt
unfolding verify_plan_structure canonical_binary nats_eq policy_digest each post_state_digest
    verify_projected_post_state source_tests ensure_source_state ensure_sorted_unique_decisions
    ensure_semantic_evidence ensure_semantic_from ensure_sources_from ensure_ranked
    ensure_dispositions_from semantic_bytes_from ensure_lottery
structured = refl

applied : apply_retirement toy apply_plan 0 plan ≡ (1, ok receipt)
unfolding apply_retirement apply_checked issue_receipt normalize_artifacts from_plan plan_digest
    decision_digest recompute_receipt_id run_id_of canonical_binary nats_eq
applied = rw structured refl

abbrev inputs : ReceiptVerificationInputs
inputs = record {
  policy = poc_v1;
  snapshot = snapshot;
  seed = 7;
  observed_state_digest = 33;
  observed_exact_artifact_digests = (31, 3 ∷ []) ∷ [];
}

artifacts :
    normalize_artifacts inputs.observed_exact_artifact_digests
    ≡ (from_plan plan).exact_artifact_digests
unfolding normalize_artifacts from_plan
artifacts = refl

abbrev accepted_receipt : VerifiedReceipt
accepted_receipt = record {
  receipt_id = 31;
  run_id = 63;
  plan_digest = 33;
  status = InvariantStatus.verified;
}

verify_receipt-apply_retirement_example :
    verify_receipt toy 1 receipt inputs ≡ ok (some accepted_receipt)
verify_receipt-apply_retirement_example =
    verify_receipt-apply_retirement toy apply_plan 0 1 1 inputs plan receipt run applied refl
      artifacts

accepted : verify_receipt toy 1 receipt inputs ≡ ok (some accepted_receipt)
accepted =
    verify_receipt-apply_retirement toy apply_plan 0 1 1 inputs plan receipt run applied refl
      artifacts

verify_receipt-ClosesOver_example :
    (p : RetirementPlan) × (plan_retirement toy 1 poc_v1 7 snapshot ≡ ok (some p))
    × (verify_plan_structure toy p ≡ ok tt)
    × ClosesOver toy receipt inputs p
verify_receipt-ClosesOver_example =
    verify_receipt-ClosesOver toy 1 receipt inputs accepted_receipt accepted

verify_plan_structure-IsStructured_example : IsStructured toy plan
verify_plan_structure-IsStructured_example = verify_plan_structure-IsStructured toy plan structured
