-- ===== src/Receipt/Structured.antt =====
-- crates/naome-memory-core/src/receipt.rs: what `verify_plan_structure` promises of a plan.
use naome_memory.Base.{
  ℕ, ◌≤◌, ◌≡◌, ◌∙◌, sym, ap, subst, Bool, false, not, ◌||◌, [], ◌∷◌, none, some, map, min, length,
  filterb, All, arith, ltb, ◌==◌, str_eq, if◌then◌else◌, All-map, ||_false, any_true,
  any_true-false, not-false, set_of, nat_ord, nats_eq, nats_eq→eq,
}
use naome_memory.Base.Sets.{set_of_self, IsSetOf}
use naome_memory.Error.{ok, each, each-All, >>=-eq-ok, >>-eq-ok, reject_if-eq-ok, reject_if-last}
use naome_memory.Validation.{increasing}
use naome_memory.Fixed.{ceil_count}
use naome_memory.Policy.{Policy, poc_v1}
use naome_memory.Externals.{Externals}
use naome_memory.Digests.{policy_digest}
use naome_memory.Seal.Episode.Closure.{same_id-eq}
use naome_memory.Retirement.Types.{RetirementPlan, RetirementDecision, RetirementPostStateAtom}
use naome_memory.Retirement.PostState.{zip, post_state_digest}
use naome_memory.Receipt.Structure.Projected.{
  same_bool, source_tests, ensure_source_state, verify_projected_post_state,
}
use naome_memory.Receipt.Structure.Evidence.{
  ensure_semantic_evidence, ensure_dispositions_from, ensure_sources_from, ensure_ranked,
  ensure_semantic_from,
}
use naome_memory.Receipt.Structure.{
  ensure_sorted_unique_decisions, semantic_bytes_from, ensure_lottery, verify_plan_structure,
}
use naome_memory.Receipt.Compared.{number_eq}
use naome_memory.Receipt.Budgeted.{
  increasing-IsSetOf, IsSetOf-filterb, body_bytes, semantic_bytes_from-sum,
  ensure_dispositions_from-le,
}

-- The post-state of a source is what its decision says.
abbrev pub Settled : RetirementPostStateAtom × RetirementDecision → Type 0
Settled (state, decision) =
    (state.atom_id ≡ decision.atom_id)
    × (state.stored_body_digest ≡ (if decision.exact_retained then some decision.atom_id else none))
    × (state.pinned_artifact_digests ≡ decision.exact_artifact_digests)
    × (decision.forget_episode_body ≡ not decision.exact_retained)

unequal : (a b : Bool) → same_bool a b ≡ false → a ≡ not b
unequal a b h = ground arith

ensure_source_state-Settled :
    (policy : Policy) (pair : RetirementPostStateAtom × RetirementDecision)
    → ensure_source_state policy pair ≡ ok tt
    → Settled pair
unfolding ensure_source_state source_tests
ensure_source_state-Settled policy (state, decision) h =
    let (
      named,
      (_, (_, (_, (_, (_, (stored, (_, (_, (_, (_, (_, (_, (pinned, (forgets, _)))))))))))))),
    ) =
      any_true-false (source_tests policy state decision)
        (reject_if-last (any_true (source_tests policy state decision)) _ h) in
    (
      number_eq state.atom_id decision.atom_id named,
      same_id-eq _ _ (not-false _ stored),
      nats_eq→eq _ _ (not-false _ pinned),
      unequal decision.forget_episode_body decision.exact_retained forgets,
    )

-- The decisions and the budgets of a plan.
pub record IsStructured (ext : Externals) (plan : RetirementPlan) : Type 0 where
  pub policy : policy_digest ext poc_v1 ≡ ok plan.policy_digest
  pub state : post_state_digest ext plan.projected_post_state ≡ ok plan.projected_state_digest
  pub sources : length plan.projected_post_state.source_atoms ≡ length plan.decisions
  pub settled : All Settled (zip plan.projected_post_state.source_atoms plan.decisions)
  pub ordered : IsSetOf (map (λ d. d.atom_id) plan.decisions)
  pub winners :
      plan.episodic_winners ≡ map (λ d. d.atom_id) (filterb (λ d. d.exact_retained) plan.decisions)
  pub winner_budget :
      length plan.episodic_winners
      ≡ min
          (ceil_count poc_v1.episodic_rate plan.episodic_population_count)
          poc_v1.episodic_count_max
  pub winner_bytes : plan.episodic_winner_bytes ≤ poc_v1.episodic_pin_budget_bytes
  pub semantic_budget :
      length plan.semantic_atoms
      ≤ min (ceil_count poc_v1.semantic_rate (length plan.decisions)) poc_v1.semantic_count_max
  pub semantic_bytes : plan.semantic_body_bytes ≡ body_bytes plan.semantic_atoms

module _ (ext : Externals) where
  ensure_semantic_evidence-le :
      (plan : RetirementPlan) (policy : Policy)
      → ensure_semantic_evidence ext plan policy ≡ ok tt
      → length plan.semantic_atoms ≤ plan.semantic_count_budget
  unfolding ensure_semantic_evidence
  ensure_semantic_evidence-le plan policy h =
      let (_, h₁) = >>-eq-ok (ensure_semantic_from ext policy [] plan.semantic_atoms) _ h in
      let (_, h₂) = >>-eq-ok (ensure_sources_from policy [] plan.semantic_decisions) _ h₁ in
      let (_, h₃) = >>-eq-ok (ensure_ranked plan.semantic_decisions) _ h₂ in
      let (selected_index, made, h₄) =
        >>=-eq-ok
          (ensure_dispositions_from plan.semantic_atoms plan.semantic_count_budget policy 0 0 0
            plan.semantic_decisions)
          _ h₃ in
      let counted =
        number_eq selected_index (length plan.semantic_atoms)
          (reject_if-last (not (selected_index == length plan.semantic_atoms)) _ h₄) in
      let within =
        ensure_dispositions_from-le plan.semantic_atoms plan.semantic_count_budget policy 0 0
          selected_index plan.semantic_decisions (omega arith) made in
      omega arith

  verify_projected_post_state-Settled :
      (plan : RetirementPlan) (policy : Policy)
      → verify_projected_post_state ext plan policy ≡ ok tt
      → (length plan.projected_post_state.source_atoms ≡ length plan.decisions)
        × All Settled (zip plan.projected_post_state.source_atoms plan.decisions)
  unfolding verify_projected_post_state
  verify_projected_post_state-Settled plan policy h =
      let closure =
        not (str_eq plan.projected_post_state.memory_space_id plan.memory_space_id)
        ∷ not (length plan.projected_post_state.source_atoms == length plan.decisions)
        ∷ not (length plan.projected_post_state.semantic_atoms == length plan.semantic_atoms)
        ∷ [] in
      let (tests, h₁) = reject_if-eq-ok (any_true closure) _ _ h in
      let (_, (counted, _)) = any_true-false closure tests in
      let (checked, _) =
        >>-eq-ok
          (each (ensure_source_state policy)
            (zip plan.projected_post_state.source_atoms plan.decisions))
          _ h₁ in
      (
        number_eq _ _ counted,
        All-map (λ pair. ensure_source_state policy pair ≡ ok tt) Settled
            (zip plan.projected_post_state.source_atoms plan.decisions)
            (ensure_source_state-Settled policy) (each-All (ensure_source_state policy) _ checked),
      )

  -- What the comparison of the winners and of the budgets says.
  ensure_lottery-eq :
      (plan : RetirementPlan) (policy : Policy) (semantic_body_bytes : ℕ)
      → IsSetOf (map (λ d. d.atom_id) plan.decisions)
      → IsSetOf plan.episodic_winners
      → ensure_lottery plan policy semantic_body_bytes ≡ ok tt
      → (plan.episodic_winners
          ≡ map (λ d. d.atom_id) (filterb (λ d. d.exact_retained) plan.decisions))
        × (length plan.episodic_winners
            ≡ min
                (ceil_count policy.episodic_rate plan.episodic_population_count)
                policy.episodic_count_max)
        × (plan.semantic_count_budget
            ≡ min
                (ceil_count policy.semantic_rate (length plan.decisions))
                policy.semantic_count_max)
        × (plan.semantic_body_bytes ≡ semantic_body_bytes)
        × (plan.episodic_winner_bytes ≤ policy.episodic_pin_budget_bytes)
  unfolding ensure_lottery
  ensure_lottery-eq plan policy semantic_body_bytes ordered rising h =
      let retained = map (λ d. d.atom_id) (filterb (λ d. d.exact_retained) plan.decisions) in
      let winner_budget =
        min (ceil_count policy.episodic_rate plan.episodic_population_count)
          policy.episodic_count_max in
      let semantic_budget =
        min (ceil_count policy.semantic_rate (length plan.decisions)) policy.semantic_count_max in
      let tests =
        not (nats_eq (set_of plan.episodic_winners) (set_of retained))
        ∷ not (plan.episodic_winner_budget == winner_budget)
        ∷ not (length plan.episodic_winners == plan.episodic_winner_budget)
        ∷ not (plan.semantic_count_budget == semantic_budget)
        ∷ not (plan.semantic_body_bytes == semantic_body_bytes)
        ∷ ltb policy.episodic_pin_budget_bytes plan.episodic_winner_bytes
        ∷ [] in
      let (won, (budget, (counted, (semantic, (bytes, (pinned, _)))))) =
        any_true-false tests (reject_if-last (any_true tests) _ h) in
      let kept = IsSetOf-filterb (λ d. d.atom_id) (λ d. d.exact_retained) plan.decisions ordered in
      let equal = nats_eq→eq (set_of plan.episodic_winners) (set_of retained) (not-false _ won) in
      (
        sym (set_of_self plan.episodic_winners rising) ∙ equal ∙ set_of_self retained kept,
        number_eq _ _ counted ∙ number_eq _ _ budget,
        number_eq _ _ semantic,
        number_eq _ _ bytes,
        ground arith,
      )

  -- A plan that passes `verify_plan_structure` has the committed policy and the digest of its post-state; the
  -- post-state of each source is what its decision says; the decisions are strictly in the order of their
  -- identifiers; the winners are the sources that are retained exactly, as many as the policy draws from a
  -- population of the size that the plan reports, and the winner bytes that it reports are within the pin
  -- budget; and there are no more semantic atoms than the policy allows, whose bytes the plan sums.
  pub verify_plan_structure-IsStructured :
      (plan : RetirementPlan) → verify_plan_structure ext plan ≡ ok tt → IsStructured ext plan
  unfolding verify_plan_structure ensure_sorted_unique_decisions
  verify_plan_structure-IsStructured plan h =
      let (_, h₁) =
        reject_if-eq-ok (not (str_eq plan.contract_version "retirement-plan-v1")) _ _ h in
      let (_, h₂) = reject_if-eq-ok (not (str_eq plan.policy_id "poc-v1")) _ _ h₁ in
      let (digest, governed, h₃) = >>=-eq-ok (policy_digest ext poc_v1) _ h₂ in
      let (authority, h₄) = reject_if-eq-ok (not (plan.policy_digest == digest) || _) _ _ h₃ in
      let (policy, _) = ||_false (not (plan.policy_digest == digest)) _ authority in
      let (posted, h₅) = >>-eq-ok (verify_projected_post_state ext plan poc_v1) _ h₄ in
      let (sources, settled) = verify_projected_post_state-Settled plan poc_v1 posted in
      let (state_digest, projected, h₆) =
        >>=-eq-ok (post_state_digest ext plan.projected_post_state) _ h₅ in
      let (state, h₇) =
        reject_if-eq-ok (not (state_digest == plan.projected_state_digest)) _ _ h₆ in
      let (sorted, h₈) = >>-eq-ok (ensure_sorted_unique_decisions plan.decisions) _ h₇ in
      let ordered = increasing-IsSetOf (map (λ d. d.atom_id) plan.decisions) (
        not-false _
          (reject_if-last (not (increasing (map (λ d. d.atom_id) plan.decisions))) _ sorted)) in
      let (evidenced, h₉) = >>-eq-ok (ensure_semantic_evidence ext plan poc_v1) _ h₈ in
      let within = ensure_semantic_evidence-le plan poc_v1 evidenced in
      let (rising, h₁₀) = reject_if-eq-ok (not (increasing plan.episodic_winners)) _ _ h₉ in
      let (bytes, summed, h₁₁) = >>=-eq-ok (semantic_bytes_from 0 plan.semantic_atoms) _ h₁₀ in
      let (winners, winner_budget, semantic_budget, body, winner_bytes) =
        ensure_lottery-eq plan poc_v1 bytes ordered
          (increasing-IsSetOf plan.episodic_winners (not-false _ rising)) h₁₁ in
      let total = semantic_bytes_from-sum 0 bytes plan.semantic_atoms summed in
      let semantic_bytes : plan.semantic_body_bytes ≡ body_bytes plan.semantic_atoms =
        omega arith in
      record {
        policy = governed ∙ ap ok (sym (number_eq plan.policy_digest digest policy));
        state = projected ∙ ap ok (number_eq state_digest plan.projected_state_digest state);
        sources = sources;
        settled = settled;
        ordered = ordered;
        winners = winners;
        winner_budget = winner_budget;
        winner_bytes = winner_bytes;
        semantic_budget =
            subst (λ budget. length plan.semantic_atoms ≤ budget) semantic_budget within;
        semantic_bytes = semantic_bytes;
      }
