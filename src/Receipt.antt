-- ===== src/Receipt.antt =====
-- crates/naome-memory-core/src/receipt.rs: `apply_retirement`, which issues a receipt for a plan that a store
-- has applied, and `verify_receipt`, which checks a receipt against the plan that it computes again.
--
-- The store is a state and a function on it. A result `ok none` of a verification says that the lottery of
-- the plan has used up the fuel.
pub mod Types
pub mod Structure
pub mod Compared
pub mod Inputs
pub mod Accepted
pub mod Sound
pub mod Budgeted
pub mod Structured
use naome_memory.Base.{
  ℕ, zero, suc, ◌/◌, ◌%◌, String, Bool, true, false, not, List, [], ◌∷◌, ◌++◌, Option, none, some,
  map, length, filterb, str_eq, ◌==◌, same, any_true, str_discrete, set_of, nat_ord, ltb,
  if◌then◌else◌,
}
use native.Mathlib.Decide.{ℕ_discrete}
use naome_memory.Error.{
  Result, ok, err, reject_if, ◌>>=◌, ◌>>◌, stale_plan, invalid_apply_closure, receipt_rejected,
  unknown_version,
}
use naome_memory.Canonical.{canonical_binary}
use naome_memory.Policy.{validate_poc_v1}
use naome_memory.Atom.{Digest32, AtomId}
use naome_memory.Hex.{digest_bytes}
use naome_memory.Externals.{Externals, hash_prefixed}
use naome_memory.Digests.{domain, policy_digest}
use naome_memory.Retirement.Types.{RetirementPlan}
use naome_memory.Retirement.Plan.{plan_retirement}
use naome_memory.Receipt.Types.{
  InvariantStatus, verified, OverallProofStatus, passed, ReceiptClosure, ReceiptAuthority,
  ProofReceipt, ApplyRetirementOutcome, ReceiptVerificationInputs, VerifiedReceipt,
}
use naome_memory.Receipt.Structure.{verify_plan_structure}

unfoldable pub digests_discrete : Discrete (List Digest32)
unfolding ℕ_discrete
digests_discrete = hlevel ℕ_discrete

unfoldable pub artifacts_discrete : Discrete (List (AtomId × List Digest32))
unfolding ℕ_discrete
artifacts_discrete = hlevel ℕ_discrete

unfoldable pub ReceiptClosure-discrete : Discrete ReceiptClosure
unfolding ℕ_discrete
ReceiptClosure-discrete = hlevel ℕ_discrete

unfoldable pub invariants_discrete : Discrete (List (String × InvariantStatus))
unfolding str_discrete
invariants_discrete = hlevel str_discrete

unfoldable pub OverallProofStatus-discrete : Discrete OverallProofStatus
OverallProofStatus-discrete = hlevel

-- `BTreeMap::insert`, on the entries in the order of their keys.
unfoldable pub map_insert :
    AtomId → List Digest32 → List (AtomId × List Digest32) → List (AtomId × List Digest32)
map_insert key digests [] = (key, digests) ∷ []
map_insert key digests ((k, v) ∷ entries) =
    let rest = map_insert key digests entries in
    if ltb key k
    then (key, digests) ∷ (k, v) ∷ entries
    else if key == k
    then (key, digests) ∷ entries
    else (k, v) ∷ rest

-- `collect` into a `BTreeMap`, from the first entry on.
unfoldable pub collect_entries :
    List (AtomId × List Digest32) → List (AtomId × List Digest32) → List (AtomId × List Digest32)
unfolding map_insert
collect_entries entries [] = entries
collect_entries entries ((key, digests) ∷ rest) =
    collect_entries (map_insert key digests entries) rest

-- `ReceiptClosureV1::from_plan`
unfoldable pub from_plan : RetirementPlan → ReceiptClosure
unfolding collect_entries
from_plan plan = record {
  source_atom_ids = map (λ d. d.atom_id) plan.decisions;
  semantic_atom_ids = map (λ s. s.atom_id) plan.semantic_atoms;
  exact_episode_ids = plan.episodic_winners;
  exact_artifact_digests = collect_entries [] (
      map (λ d. (d.atom_id, d.exact_artifact_digests))
        (filterb (λ d. d.exact_retained) plan.decisions));
}

-- `sort_unstable` and `dedup` of each value.
unfoldable pub normalize_artifacts : List (AtomId × List Digest32) → List (AtomId × List Digest32)
unfolding set_of
normalize_artifacts artifacts = map (λ e. (e.0, set_of e.1)) artifacts

abbrev pub invariant_map : List (String × InvariantStatus)
invariant_map =
    ("budgets_structurally_bounded", verified)
    ∷ ("plan_structure_verified", verified)
    ∷ ("repository_outcome_closure_verified", verified)
    ∷ []

module _ (ext : Externals) where
  -- `RetirementPlanV1::digest`
  unfoldable pub plan_digest : RetirementPlan → Result Digest32
  unfolding hash_prefixed
  plan_digest plan = do
    bytes ← canonical_binary (ext.plan_value plan)
    ok (hash_prefixed ext (domain "naome-memory:retirement-plan:v1") bytes)

  -- `RetirementPlanV1::decision_digest`
  unfoldable pub decision_digest : RetirementPlan → Result Digest32
  unfolding hash_prefixed
  decision_digest plan = do
    bytes ← canonical_binary (ext.decisions_value plan.decisions)
    ok (hash_prefixed ext (domain "naome-memory:retirement-decisions:v1") bytes)

  -- `ProofReceiptV1::recompute_receipt_id`
  unfoldable pub recompute_receipt_id : ReceiptAuthority → Result Digest32
  unfolding hash_prefixed
  recompute_receipt_id authority = do
    bytes ← canonical_binary (ext.receipt_value authority)
    ok (hash_prefixed ext (domain "naome-memory:proof-receipt:v1") bytes)

  unfoldable pub run_id_of : Digest32 → Digest32
  unfolding hash_prefixed digest_bytes
  run_id_of digest =
      hash_prefixed ext (domain "naome-memory:retirement-run:v1") (digest_bytes 32 digest)

  -- The receipt of a plan, all but its identifier.
  abbrev pub authority_of : RetirementPlan → Digest32 → Digest32 → Digest32 → ReceiptAuthority
  authority_of plan state digest decisions = record {
    contract_version = "proof-receipt-v1";
    run_id = run_id_of digest;
    memory_space_id = plan.memory_space_id;
    cohort_day = plan.cohort_day;
    as_of_us = plan.as_of_us;
    policy_id = plan.policy_id;
    policy_digest = plan.policy_digest;
    seed = plan.seed;
    input_set_digest = plan.input_set_digest;
    rng_identifier = plan.rng_identifier;
    population_digest = plan.episodic_population_digest;
    episodic_population_count = plan.episodic_population_count;
    episodic_winner_budget = plan.episodic_winner_budget;
    episodic_winner_bytes = plan.episodic_winner_bytes;
    semantic_count_budget = plan.semantic_count_budget;
    semantic_body_bytes = plan.semantic_body_bytes;
    plan_digest = digest;
    decision_digest = decisions;
    state_digest = state;
    closure = from_plan plan;
    invariants = invariant_map;
    overall_status = passed;
  }

  -- `apply_retirement`, of what the store has reported.
  unfoldable pub issue_receipt : RetirementPlan → ApplyRetirementOutcome → Result ProofReceipt
  unfolding digests_discrete artifacts_discrete
  issue_receipt plan outcome = do
    reject_if (not (outcome.observed_input_digest == plan.input_set_digest))
        (stale_plan plan.input_set_digest outcome.observed_input_digest)
    reject_if (not (outcome.state_digest == plan.projected_state_digest))
        (invalid_apply_closure "state digest mismatch")
    reject_if (not (outcome.applied_decision_count == length plan.decisions))
        (invalid_apply_closure "decision count mismatch")
    reject_if
        (any_true (
          not (same digests_discrete outcome.semantic_atom_ids (from_plan plan).semantic_atom_ids)
          ∷ not (same digests_discrete outcome.episodic_atom_ids (from_plan plan).exact_episode_ids)
          ∷ not (
              same artifacts_discrete (normalize_artifacts outcome.exact_artifact_digests)
                (from_plan plan).exact_artifact_digests)
          ∷ []))
        (invalid_apply_closure "semantic, episodic, or artifact closure mismatch")
    digest ← plan_digest plan
    decisions ← decision_digest plan
    id ← recompute_receipt_id (authority_of plan outcome.state_digest digest decisions)
    ok (record {
      receipt_id = id;
      authority = authority_of plan outcome.state_digest digest decisions;
    })

  -- `apply_retirement`, of the checks of the plan, with the store after it.
  unfoldable pub apply_checked :
      {R : Type 0}
      → (R → RetirementPlan → R × Result ApplyRetirementOutcome)
      → R
      → RetirementPlan
      → Result (Unit {0})
      → R × Result ProofReceipt
  apply_checked apply_plan_atomically repository plan (err error) = (repository, err error)
  apply_checked apply_plan_atomically repository plan (ok checked) =
      let applied = apply_plan_atomically repository plan in
      (applied.0, applied.1 >>= issue_receipt plan)

  unfoldable pub apply_retirement :
      {R : Type 0}
      → (R → RetirementPlan → R × Result ApplyRetirementOutcome)
      → R
      → RetirementPlan
      → R × Result ProofReceipt
  unfolding apply_checked
  apply_retirement apply_plan_atomically repository plan =
      apply_checked apply_plan_atomically repository plan (verify_plan_structure ext plan)

  -- The comparison of a receipt with the plan that was computed again: up to the digest of the decisions,
  -- and from that of the policy on.
  unfoldable pub plan_tests : ReceiptAuthority → RetirementPlan → Digest32 → List Bool
  plan_tests receipt plan digest =
      not (receipt.run_id == run_id_of digest)
      ∷ not (str_eq receipt.memory_space_id plan.memory_space_id)
      ∷ not (receipt.cohort_day == plan.cohort_day)
      ∷ not (receipt.as_of_us == plan.as_of_us)
      ∷ not (str_eq receipt.policy_id plan.policy_id)
      ∷ not (receipt.policy_digest == plan.policy_digest)
      ∷ not (receipt.plan_digest == digest)
      ∷ []

  unfoldable pub input_tests :
      ReceiptAuthority → ReceiptVerificationInputs → RetirementPlan → Digest32 → List Bool
  unfolding ReceiptClosure-discrete
  input_tests receipt inputs plan policy =
      not (receipt.policy_digest == policy)
      ∷ not (receipt.seed == inputs.seed)
      ∷ not (receipt.input_set_digest == plan.input_set_digest)
      ∷ not (str_eq receipt.rng_identifier plan.rng_identifier)
      ∷ not (receipt.population_digest == plan.episodic_population_digest)
      ∷ not (receipt.episodic_population_count == plan.episodic_population_count)
      ∷ not (receipt.episodic_winner_budget == plan.episodic_winner_budget)
      ∷ not (receipt.episodic_winner_bytes == plan.episodic_winner_bytes)
      ∷ not (receipt.semantic_count_budget == plan.semantic_count_budget)
      ∷ not (receipt.semantic_body_bytes == plan.semantic_body_bytes)
      ∷ not (receipt.state_digest == plan.projected_state_digest)
      ∷ not (receipt.state_digest == inputs.observed_state_digest)
      ∷ not (same ReceiptClosure-discrete receipt.closure (from_plan plan))
      ∷ []

  unfoldable pub verify_authority :
      ReceiptAuthority → ReceiptVerificationInputs → RetirementPlan → Digest32 → Result (Unit {0})
  verify_authority receipt inputs plan digest = do
    reject_if (any_true (plan_tests receipt plan digest))
        (receipt_rejected "input, policy, seed, decision, state, or closure mismatch")
    decisions ← decision_digest plan
    reject_if (not (receipt.decision_digest == decisions))
        (receipt_rejected "input, policy, seed, decision, state, or closure mismatch")
    policy ← policy_digest ext inputs.policy
    reject_if (any_true (input_tests receipt inputs plan policy))
        (receipt_rejected "input, policy, seed, decision, state, or closure mismatch")

  -- `verify_receipt`, of the plan that was computed again.
  unfoldable pub verify_against :
      ProofReceipt → ReceiptVerificationInputs → RetirementPlan → Result VerifiedReceipt
  unfolding artifacts_discrete invariants_discrete OverallProofStatus-discrete
  verify_against receipt inputs plan = do
    verify_plan_structure ext plan
    digest ← plan_digest plan
    id ← recompute_receipt_id receipt.authority
    reject_if (not (receipt.receipt_id == id)) (receipt_rejected "receipt id mismatch")
    verify_authority receipt.authority inputs plan digest
    reject_if
        (not (
          same artifacts_discrete (normalize_artifacts inputs.observed_exact_artifact_digests)
            receipt.closure.exact_artifact_digests))
        (receipt_rejected "observed exact artifacts do not close")
    reject_if
        (any_true (
          not (same OverallProofStatus-discrete receipt.overall_status passed)
          ∷ not (same invariants_discrete receipt.invariants invariant_map)
          ∷ []))
        (receipt_rejected "receipt does not claim verified invariants")
    ok (record {
      receipt_id = receipt.receipt_id;
      run_id = receipt.run_id;
      plan_digest = receipt.plan_digest;
      status = verified;
    })

  abbrev pub verify_drawn :
      ProofReceipt
      → ReceiptVerificationInputs
      → Option RetirementPlan
      → Result (Option VerifiedReceipt)
  verify_drawn receipt inputs none = ok none
  verify_drawn receipt inputs (some plan) = do
    result ← verify_against receipt inputs plan
    ok (some result)

  unfoldable pub verify_receipt :
      ℕ → ProofReceipt → ReceiptVerificationInputs → Result (Option VerifiedReceipt)
  verify_receipt fuel receipt inputs = do
    reject_if (not (str_eq receipt.contract_version "proof-receipt-v1"))
        (unknown_version receipt.contract_version)
    validate_poc_v1 inputs.policy
    drawn ← plan_retirement ext fuel inputs.policy inputs.seed inputs.snapshot
    verify_drawn receipt inputs drawn
