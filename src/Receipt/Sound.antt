-- ===== src/Receipt/Sound.antt =====
-- crates/naome-memory-core/src/receipt.rs: what a receipt that `verify_receipt` accepts says.
use naome_memory.Base.{
  ℕ, ◌≡◌, ◌∙◌, refl, sym, ap, false, not, [], ◌∷◌, Option, none, some, str_eq, ◌==◌, same, any_true,
  any_true-false, some_inj,
}
use naome_memory.Error.{ok, >>=-eq-ok, >>-eq-ok, reject_if-eq-ok, reject_if-last, ok_inj}
use naome_memory.Policy.{validate_poc_v1}
use naome_memory.Atom.{Digest32}
use naome_memory.Externals.{Externals}
use naome_memory.Digests.{policy_digest}
use naome_memory.Retirement.Types.{RetirementPlan}
use naome_memory.Retirement.Plan.{plan_retirement}
use naome_memory.Receipt.Types.{
  passed, ReceiptAuthority, ProofReceipt, ReceiptVerificationInputs, VerifiedReceipt,
}
use naome_memory.Receipt.Structure.{verify_plan_structure}
use naome_memory.Receipt.{
  from_plan, normalize_artifacts, invariant_map, plan_digest, decision_digest, recompute_receipt_id,
  run_id_of, authority_of, plan_tests, input_tests, verify_authority, verify_against, verify_drawn,
  verify_receipt, artifacts_discrete, ReceiptClosure-discrete, invariants_discrete,
  OverallProofStatus-discrete,
}
use naome_memory.Receipt.Compared.{number_eq, text_eq, decided_eq}
use naome_memory.Receipt.Inputs.{plan_retirement-KeepsInputs}

module _ (ext : Externals) where
  -- What the comparisons up to the digest of the decisions say.
  plan_tests-eq :
      (authority : ReceiptAuthority) (plan : RetirementPlan) (digest : Digest32)
      → any_true (plan_tests ext authority plan digest) ≡ false
      → (authority.run_id ≡ run_id_of ext digest)
        × (authority.memory_space_id ≡ plan.memory_space_id)
        × (authority.cohort_day ≡ plan.cohort_day)
        × (authority.as_of_us ≡ plan.as_of_us)
        × (authority.policy_id ≡ plan.policy_id)
        × (authority.policy_digest ≡ plan.policy_digest)
        × (authority.plan_digest ≡ digest)
  unfolding plan_tests
  plan_tests-eq authority plan digest h =
      let (a, (b, (c, (d, (e, (f, (g, _))))))) =
        any_true-false (plan_tests ext authority plan digest) h in
      (
        number_eq _ _ a,
        text_eq _ _ b,
        number_eq _ _ c,
        number_eq _ _ d,
        text_eq _ _ e,
        number_eq _ _ f,
        number_eq _ _ g,
      )

  -- What the comparisons from the digest of the policy on say.
  input_tests-eq :
      (authority : ReceiptAuthority) (inputs : ReceiptVerificationInputs) (plan : RetirementPlan)
      (policy : Digest32)
      → any_true (input_tests ext authority inputs plan policy) ≡ false
      → (authority.policy_digest ≡ policy)
        × (authority.seed ≡ inputs.seed)
        × (authority.input_set_digest ≡ plan.input_set_digest)
        × (authority.rng_identifier ≡ plan.rng_identifier)
        × (authority.population_digest ≡ plan.episodic_population_digest)
        × (authority.episodic_population_count ≡ plan.episodic_population_count)
        × (authority.episodic_winner_budget ≡ plan.episodic_winner_budget)
        × (authority.episodic_winner_bytes ≡ plan.episodic_winner_bytes)
        × (authority.semantic_count_budget ≡ plan.semantic_count_budget)
        × (authority.semantic_body_bytes ≡ plan.semantic_body_bytes)
        × (authority.state_digest ≡ plan.projected_state_digest)
        × (authority.state_digest ≡ inputs.observed_state_digest)
        × (authority.closure ≡ from_plan plan)
  unfolding input_tests
  input_tests-eq authority inputs plan policy h =
      let (a, (b, (c, (d, (e, (f, (g, (i, (j, (k, (l, (m, (n, _))))))))))))) =
        any_true-false (input_tests ext authority inputs plan policy) h in
      (
        number_eq _ _ a,
        number_eq _ _ b,
        number_eq _ _ c,
        text_eq _ _ d,
        number_eq _ _ e,
        number_eq _ _ f,
        number_eq _ _ g,
        number_eq _ _ i,
        number_eq _ _ j,
        number_eq _ _ k,
        number_eq _ _ l,
        number_eq _ _ m,
        decided_eq ReceiptClosure-discrete _ _ n,
      )

  -- A receipt closes over a plan: its fields are those of the plan, its identifier is recomputed from them, and
  -- the state and the artifacts that are observed are those of the plan.
  abbrev pub ClosesOver : ProofReceipt → ReceiptVerificationInputs → RetirementPlan → Type 0
  ClosesOver receipt inputs plan =
      (digest : Digest32) × (decisions : Digest32) × (plan_digest ext plan ≡ ok digest)
      × (decision_digest ext plan ≡ ok decisions)
      × (receipt.authority ≡ authority_of ext plan plan.projected_state_digest digest decisions)
      × (recompute_receipt_id ext receipt.authority ≡ ok receipt.receipt_id)
      × (inputs.observed_state_digest ≡ plan.projected_state_digest)
      × (normalize_artifacts inputs.observed_exact_artifact_digests
          ≡ (from_plan plan).exact_artifact_digests)

  -- An authority that is accepted is the one that a receipt of the plan has.
  verify_authority-eq :
      (authority : ReceiptAuthority) (inputs : ReceiptVerificationInputs) (plan : RetirementPlan)
      (digest : Digest32)
      → plan.seed ≡ inputs.seed
      → authority.contract_version ≡ "proof-receipt-v1"
      → authority.invariants ≡ invariant_map
      → authority.overall_status ≡ passed
      → verify_authority ext authority inputs plan digest ≡ ok tt
      → (decisions : Digest32) × (decision_digest ext plan ≡ ok decisions)
        × (authority ≡ authority_of ext plan plan.projected_state_digest digest decisions)
        × (inputs.observed_state_digest ≡ plan.projected_state_digest)
  unfolding verify_authority
  verify_authority-eq authority inputs plan digest seeded version invariants status h =
      let (first, h₁) = reject_if-eq-ok (any_true (plan_tests ext authority plan digest)) _ _ h in
      let (decisions, decided, h₂) = >>=-eq-ok (decision_digest ext plan) _ h₁ in
      let (same_decisions, h₃) =
        reject_if-eq-ok (not (authority.decision_digest == decisions)) _ _ h₂ in
      let (policy, _, h₄) = >>=-eq-ok (policy_digest ext inputs.policy) _ h₃ in
      let third = reject_if-last (any_true (input_tests ext authority inputs plan policy)) _ h₄ in
      let (run, space, day, as_of, policy_id, policy_digest, planned) =
        plan_tests-eq authority plan digest first in
      let (
        _, seed, input, rng, population, count, winners, bytes, semantic, body, state, observed,
        closure,
      ) =
        input_tests-eq authority inputs plan policy third in
      let decisions_eq = number_eq authority.decision_digest decisions same_decisions in
      let same_seed = seed ∙ sym seeded in
      let bound : authority ≡ authority_of ext plan plan.projected_state_digest digest decisions =
        λ i. record {
          contract_version = version i;
          run_id = run i;
          memory_space_id = space i;
          cohort_day = day i;
          as_of_us = as_of i;
          policy_id = policy_id i;
          policy_digest = policy_digest i;
          seed = same_seed i;
          input_set_digest = input i;
          rng_identifier = rng i;
          population_digest = population i;
          episodic_population_count = count i;
          episodic_winner_budget = winners i;
          episodic_winner_bytes = bytes i;
          semantic_count_budget = semantic i;
          semantic_body_bytes = body i;
          plan_digest = planned i;
          decision_digest = decisions_eq i;
          state_digest = state i;
          closure = closure i;
          invariants = invariants i;
          overall_status = status i;
        } in
      (decisions, decided, bound, sym observed ∙ state)

  verify_against-ClosesOver :
      (receipt : ProofReceipt) (inputs : ReceiptVerificationInputs) (plan : RetirementPlan)
      (result : VerifiedReceipt)
      → plan.seed ≡ inputs.seed
      → receipt.contract_version ≡ "proof-receipt-v1"
      → verify_against ext receipt inputs plan ≡ ok result
      → (verify_plan_structure ext plan ≡ ok tt) × ClosesOver receipt inputs plan
  unfolding verify_against
  verify_against-ClosesOver receipt inputs plan result seeded version h =
      let (structured, h₁) = >>-eq-ok (verify_plan_structure ext plan) _ h in
      let (digest, digested, h₂) = >>=-eq-ok (plan_digest ext plan) _ h₁ in
      let (id, identified, h₃) = >>=-eq-ok (recompute_receipt_id ext receipt.authority) _ h₂ in
      let (same_id, h₄) = reject_if-eq-ok (not (receipt.receipt_id == id)) _ _ h₃ in
      let (accepted, h₅) =
        >>-eq-ok (verify_authority ext receipt.authority inputs plan digest) _ h₄ in
      let (artifacts, h₆) =
        reject_if-eq-ok
          (not (
            same artifacts_discrete (normalize_artifacts inputs.observed_exact_artifact_digests)
              receipt.closure.exact_artifact_digests))
          _ _ h₅ in
      let (claims, _) =
        reject_if-eq-ok
          (any_true (
            not (same OverallProofStatus-discrete receipt.overall_status passed)
            ∷ not (same invariants_discrete receipt.invariants invariant_map)
            ∷ []))
          _ _ h₆ in
      let (status, (invariants, _)) =
        any_true-false
          (not (same OverallProofStatus-discrete receipt.overall_status passed)
            ∷ not (same invariants_discrete receipt.invariants invariant_map)
            ∷ [])
          claims in
      let (decisions, decided, bound, observed) =
        verify_authority-eq receipt.authority inputs plan digest seeded version
          (decided_eq invariants_discrete receipt.invariants invariant_map invariants)
          (decided_eq OverallProofStatus-discrete receipt.overall_status passed status) accepted in
      let closes =
        decided_eq artifacts_discrete (normalize_artifacts inputs.observed_exact_artifact_digests)
          receipt.closure.exact_artifact_digests artifacts in
      (
        structured,
        (
          digest,
          decisions,
          digested,
          decided,
          bound,
          identified ∙ ap ok (sym (number_eq receipt.receipt_id id same_id)),
          observed,
          closes ∙ ap (λ (a : ReceiptAuthority). a.closure.exact_artifact_digests) bound,
        ),
      )

  verify_drawn-some :
      (receipt : ProofReceipt) (inputs : ReceiptVerificationInputs) (drawn : Option RetirementPlan)
      (result : VerifiedReceipt)
      → verify_drawn ext receipt inputs drawn ≡ ok (some result)
      → (plan : RetirementPlan) × (drawn ≡ some plan)
        × (verify_against ext receipt inputs plan ≡ ok result)
  verify_drawn-some receipt inputs none result h = let e = ok_inj h in cc
  verify_drawn-some receipt inputs (some plan) result h =
      let (found, there, h₁) = >>=-eq-ok (verify_against ext receipt inputs plan) _ h in
      (plan, refl, there ∙ ap ok (some_inj (ok_inj h₁)))

  -- A receipt that `verify_receipt` accepts is the receipt of the plan that the policy, the seed and the
  -- snapshot determine: there is such a plan, it passes `verify_plan_structure`, and the receipt closes over it.
  pub verify_receipt-ClosesOver :
      (fuel : ℕ) (receipt : ProofReceipt) (inputs : ReceiptVerificationInputs)
      (result : VerifiedReceipt)
      → verify_receipt ext fuel receipt inputs ≡ ok (some result)
      → (plan : RetirementPlan) × (plan_retirement ext fuel inputs.policy inputs.seed
            inputs.snapshot
          ≡ ok (some plan))
        × (verify_plan_structure ext plan ≡ ok tt)
        × ClosesOver receipt inputs plan
  unfolding verify_receipt
  verify_receipt-ClosesOver fuel receipt inputs result h =
      let (version, h₁) =
        reject_if-eq-ok (not (str_eq receipt.contract_version "proof-receipt-v1")) _ _ h in
      let (_, h₂) = >>-eq-ok (validate_poc_v1 inputs.policy) _ h₁ in
      let (drawn, planned, h₃) =
        >>=-eq-ok (plan_retirement ext fuel inputs.policy inputs.seed inputs.snapshot) _ h₂ in
      let (plan, there, verified_against) = verify_drawn-some receipt inputs drawn result h₃ in
      let found = planned ∙ ap ok there in
      let (_, seeded, _) =
        plan_retirement-KeepsInputs ext fuel inputs.policy inputs.seed inputs.snapshot plan found in
      let (structured, closes) =
        verify_against-ClosesOver receipt inputs plan result seeded
          (text_eq receipt.contract_version "proof-receipt-v1" version) verified_against in
      (plan, found, structured, closes)
