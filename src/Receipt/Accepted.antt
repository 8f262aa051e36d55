-- ===== src/Receipt/Accepted.antt =====
-- crates/naome-memory-core/src/receipt.rs: the receipts that `verify_receipt` accepts, beside those that
-- `apply_retirement` issues.
use naome_memory.Base.{ℕ, ◌≡◌, ◌∙◌, refl, sym, ap, subst, false, not, some, length, ◌==◌, any_true}
use naome_memory.Error.{Result, ok, err, >>=-eq-ok, reject_if-eq-ok, ok_inj, err-ne-ok}
use naome_memory.Atom.{Digest32}
use naome_memory.Externals.{Externals}
use naome_memory.Digests.{policy_digest}
use naome_memory.Retirement.Types.{RetirementPlan}
use naome_memory.Retirement.Plan.{plan_retirement}
use naome_memory.Receipt.Types.{
  verified, ReceiptAuthority, ProofReceipt, ApplyRetirementOutcome, ReceiptVerificationInputs,
}
use naome_memory.Receipt.Structure.{verify_plan_structure}
use naome_memory.Receipt.{
  from_plan, normalize_artifacts, plan_digest, decision_digest, recompute_receipt_id, run_id_of,
  authority_of, issue_receipt, apply_checked, apply_retirement, plan_tests, input_tests,
  verify_authority, verify_against, verify_receipt, artifacts_discrete, ReceiptClosure-discrete,
}
use naome_memory.Receipt.Compared.{number_eq, number_self, text_self, decided_self, any_true-of_All}
use naome_memory.Receipt.Inputs.{plan_retirement-KeepsInputs}

module _ (ext : Externals) where
  -- A receipt that is issued is that of the plan, whose state the store has reported.
  issue_receipt-authority :
      (plan : RetirementPlan) (outcome : ApplyRetirementOutcome) (receipt : ProofReceipt)
      → issue_receipt ext plan outcome ≡ ok receipt
      → (digest : Digest32) × (decisions : Digest32) × (plan_digest ext plan ≡ ok digest)
        × (decision_digest ext plan ≡ ok decisions)
        × (receipt.authority ≡ authority_of ext plan plan.projected_state_digest digest decisions)
        × (recompute_receipt_id ext receipt.authority ≡ ok receipt.receipt_id)
  unfolding issue_receipt
  issue_receipt-authority plan outcome receipt h =
      let (a, h₁) =
        reject_if-eq-ok (not (outcome.observed_input_digest == plan.input_set_digest)) _ _ h in
      let (b, h₂) =
        reject_if-eq-ok (not (outcome.state_digest == plan.projected_state_digest)) _ _ h₁ in
      let (c, h₃) =
        reject_if-eq-ok (not (outcome.applied_decision_count == length plan.decisions)) _ _ h₂ in
      let (d, h₄) = reject_if-eq-ok _ _ _ h₃ in
      let (digest, e, h₅) = >>=-eq-ok (plan_digest ext plan) _ h₄ in
      let (decisions, f, h₆) = >>=-eq-ok (decision_digest ext plan) _ h₅ in
      let (id, g, h₇) =
        >>=-eq-ok
          (recompute_receipt_id ext (authority_of ext plan outcome.state_digest digest decisions)) _
          h₆ in
      let made = ok_inj h₇ in
      let state = number_eq outcome.state_digest plan.projected_state_digest b in
      (
        digest,
        decisions,
        e,
        f,
        sym (ap (λ (r : ProofReceipt). r.authority) made)
            ∙ ap (λ s. authority_of ext plan s digest decisions) state,
        subst (λ (r : ProofReceipt). recompute_receipt_id ext r.authority ≡ ok r.receipt_id) made g,
      )

  module _ (plan : RetirementPlan) (inputs : ReceiptVerificationInputs)
      (digest decisions policy : Digest32) (decided : decision_digest ext plan ≡ ok decisions)
      (governed : policy_digest ext inputs.policy ≡ ok policy) where
    plan_tests-pass :
        any_true (
          plan_tests ext
            (authority_of ext plan plan.projected_state_digest digest decisions)
            plan
            digest)
        ≡ false
    unfolding plan_tests
    plan_tests-pass =
        any_true-of_All
          (plan_tests ext (authority_of ext plan plan.projected_state_digest digest decisions) plan
            digest)
          (
            number_self _ _ refl,
            (
              text_self _ _ refl,
              (
                number_self _ _ refl,
                (
                  number_self _ _ refl,
                  (text_self _ _ refl, (number_self _ _ refl, (number_self _ _ refl, (tt)))),
                ),
              ),
            ),
          )

    input_tests-pass :
        plan.policy_digest ≡ policy
        → plan.seed ≡ inputs.seed
        → plan.projected_state_digest ≡ inputs.observed_state_digest
        → any_true (
            input_tests ext
              (authority_of ext plan plan.projected_state_digest digest decisions)
              inputs
              plan
              policy)
          ≡ false
    unfolding input_tests
    input_tests-pass same_policy same_seed same_state =
        any_true-of_All
          (input_tests ext (authority_of ext plan plan.projected_state_digest digest decisions)
            inputs plan policy)
          (
            number_self _ _ same_policy,
            (
              number_self _ _ same_seed,
              (
                number_self _ _ refl,
                (
                  text_self _ _ refl,
                  (
                    number_self _ _ refl,
                    (
                      number_self _ _ refl,
                      (
                        number_self _ _ refl,
                        (
                          number_self _ _ refl,
                          (
                            number_self _ _ refl,
                            (
                              number_self _ _ refl,
                              (
                                number_self _ _ refl,
                                (
                                  number_self _ _ same_state,
                                  (
                                    decided_self ReceiptClosure-discrete (from_plan plan)
                                        (from_plan plan) refl,
                                    (tt),
                                  ),
                                ),
                              ),
                            ),
                          ),
                        ),
                      ),
                    ),
                  ),
                ),
              ),
            ),
          )

    -- The authority that a receipt of the plan has is accepted.
    verify_authority-accepts :
        plan.policy_digest ≡ policy
        → plan.seed ≡ inputs.seed
        → plan.projected_state_digest ≡ inputs.observed_state_digest
        → verify_authority ext
            (authority_of ext plan plan.projected_state_digest digest decisions)
            inputs
            plan
            digest
          ≡ ok tt
    unfolding verify_authority
    verify_authority-accepts same_policy same_seed same_state =
        let first = plan_tests-pass in
        let second = number_self decisions decisions refl in
        let third = input_tests-pass same_policy same_seed same_state in
        rw (first, decided, second, governed, third, verify_authority) refl

    verify_against-accepts :
        (id : Digest32)
        → verify_plan_structure ext plan ≡ ok tt
        → plan_digest ext plan ≡ ok digest
        → recompute_receipt_id ext
            (authority_of ext plan plan.projected_state_digest digest decisions)
          ≡ ok id
        → plan.policy_digest ≡ policy
        → plan.seed ≡ inputs.seed
        → plan.projected_state_digest ≡ inputs.observed_state_digest
        → normalize_artifacts inputs.observed_exact_artifact_digests
          ≡ (from_plan plan).exact_artifact_digests
        → verify_against ext
            (record {
              receipt_id = id;
              authority = authority_of ext plan plan.projected_state_digest digest decisions;
            })
            inputs
            plan
          ≡ ok (record {
            receipt_id = id;
            run_id = run_id_of ext digest;
            plan_digest = digest;
            status = verified;
          })
    unfolding verify_against
    verify_against-accepts id structured digested identified same_policy same_seed same_state
          closes =
        let accepted = verify_authority-accepts same_policy same_seed same_state in
        let same_id = number_self id id refl in
        let closed =
          decided_self artifacts_discrete
            (normalize_artifacts inputs.observed_exact_artifact_digests)
            (from_plan plan).exact_artifact_digests closes in
        rw (structured, digested, identified, same_id, accepted, closed) refl

  -- A receipt is issued of a plan that passes the checks, and of what the store reports.
  apply_checked-ok :
      {R : Type 0} (apply_plan_atomically : R → RetirementPlan → R × Result ApplyRetirementOutcome)
      (repository : R) (plan : RetirementPlan) (checks : Result (Unit {0})) (receipt : ProofReceipt)
      → (apply_checked ext apply_plan_atomically repository plan checks).1 ≡ ok receipt
      → (checks ≡ ok tt)
        × ((outcome : ApplyRetirementOutcome) × (issue_receipt ext plan outcome ≡ ok receipt))
  unfolding apply_checked
  apply_checked-ok apply_plan_atomically repository plan (err error) receipt h =
      absurd (err-ne-ok h)
  apply_checked-ok apply_plan_atomically repository plan (ok checked) receipt h =
      let (outcome, _, issued) = >>=-eq-ok (apply_plan_atomically repository plan).1 _ h in
      (refl, (outcome, issued))

  -- A receipt that `apply_retirement` issues for the plan of a snapshot is one that `verify_receipt` accepts
  -- of the same policy, seed and snapshot, when the state and the artifacts that are observed are those of the
  -- plan: for every store, and whatever else that store has reported.
  pub verify_receipt-apply_retirement :
      {R : Type 0} (apply_plan_atomically : R → RetirementPlan → R × Result ApplyRetirementOutcome)
      (repository repository' : R) (fuel : ℕ) (inputs : ReceiptVerificationInputs)
      (plan : RetirementPlan) (receipt : ProofReceipt)
      → plan_retirement ext fuel inputs.policy inputs.seed inputs.snapshot ≡ ok (some plan)
      → apply_retirement ext apply_plan_atomically repository plan ≡ (repository', ok receipt)
      → inputs.observed_state_digest ≡ plan.projected_state_digest
      → normalize_artifacts inputs.observed_exact_artifact_digests
        ≡ (from_plan plan).exact_artifact_digests
      → verify_receipt ext fuel receipt inputs
        ≡ ok (
            some (record {
              receipt_id = receipt.receipt_id;
              run_id = receipt.run_id;
              plan_digest = receipt.plan_digest;
              status = verified;
            }))
  unfolding verify_receipt apply_retirement
  verify_receipt-apply_retirement apply_plan_atomically repository repository' fuel inputs plan
        receipt planned applied state closes =
      let (committed, seeded, governed) =
        plan_retirement-KeepsInputs ext fuel inputs.policy inputs.seed inputs.snapshot plan
          planned in
      let (structured, (outcome, issued)) =
        apply_checked-ok apply_plan_atomically repository plan (verify_plan_structure ext plan)
          receipt (ap (λ (p : _ × Result ProofReceipt). p.1) applied) in
      let (digest, decisions, digested, decided, bound, identified) =
        issue_receipt-authority plan outcome receipt issued in
      let accepted =
        verify_against-accepts plan inputs digest decisions plan.policy_digest decided governed
          receipt.receipt_id structured digested
          (subst (λ a. recompute_receipt_id ext a ≡ ok receipt.receipt_id) bound identified) refl
          seeded (sym state) closes in
      subst
        (λ (a : ReceiptAuthority).
          verify_receipt ext fuel (record { receipt_id = receipt.receipt_id; authority = a }) inputs
          ≡ ok (
              some (record {
                receipt_id = receipt.receipt_id;
                run_id = a.run_id;
                plan_digest = a.plan_digest;
                status = verified;
              })))
        (sym bound) (rw (committed, planned, accepted) refl)
