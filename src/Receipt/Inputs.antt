-- ===== src/Receipt/Inputs.antt =====
-- crates/naome-memory-core/src/retirement.rs: what a plan keeps of the inputs that `verify_receipt` has again.
use naome_memory.Base.{ℕ, ◌≡◌, ◌∙◌, refl, ap, subst, List, Option, none, some, some_inj, sort_by}
use naome_memory.Error.{ok, >>=-eq-ok, >>-eq-ok, ok_inj}
use naome_memory.Policy.{Policy, validate_poc_v1}
use naome_memory.Atom.{Digest32, Seed32, RetirementCandidate}
use naome_memory.Externals.{Externals}
use naome_memory.Digests.{policy_digest}
use naome_memory.Retirement.Types.{RetirementSnapshot, RetirementPlan}
use naome_memory.Retirement.Budget.{Selection}
use naome_memory.Retirement.Cohort.{
  validate_snapshot, validate_candidates, by_atom_id, retirement_input_digest,
}
use naome_memory.Retirement.PostState.{projected_post_state, post_state_digest}
use naome_memory.Retirement.Plan.{
  Lottery, draw_episodes, compose, compose_drawn, plan_retirement, semantic_sources,
  select_semantic,
}

module _ (ext : Externals) where
  -- What a plan keeps of its inputs.
  abbrev pub KeepsInputs : Policy → Seed32 → RetirementPlan → Type 0
  KeepsInputs policy seed plan =
      (validate_poc_v1 policy ≡ ok tt)
      × (plan.seed ≡ seed)
      × (policy_digest ext policy ≡ ok plan.policy_digest)

  compose-seed :
      (fuel : ℕ) (policy : Policy) (seed : Seed32) (snapshot : RetirementSnapshot)
      (candidates : List RetirementCandidate) (input_digest digest : Digest32)
      (selection : Selection) (lottery : Lottery) (plan : RetirementPlan)
      → compose ext fuel policy seed snapshot candidates input_digest digest selection lottery
        ≡ ok plan
      → (plan.seed ≡ seed) × (digest ≡ plan.policy_digest)
  unfolding compose
  compose-seed fuel policy seed snapshot candidates input_digest digest selection lottery plan h =
      let (sources, _, h₁) = >>=-eq-ok (semantic_sources selection.atoms) _ h in
      let (state, _, h₂) =
        >>=-eq-ok (projected_post_state ext snapshot.memory_space_id _ _ selection.atoms) _ h₁ in
      let (state_digest, _, h₃) = >>=-eq-ok (post_state_digest ext state) _ h₂ in
      subst (λ (p : RetirementPlan). (p.seed ≡ seed) × (digest ≡ p.policy_digest)) (ok_inj h₃)
        (refl, refl)

  compose_drawn-seed :
      (fuel : ℕ) (policy : Policy) (seed : Seed32) (snapshot : RetirementSnapshot)
      (candidates : List RetirementCandidate) (input_digest digest : Digest32)
      (selection : Selection) (drawn : Option Lottery) (plan : RetirementPlan)
      → compose_drawn ext fuel policy seed snapshot candidates input_digest digest selection drawn
        ≡ ok (some plan)
      → (plan.seed ≡ seed) × (digest ≡ plan.policy_digest)
  compose_drawn-seed fuel policy seed snapshot candidates input_digest digest selection none plan
        h =
      let e = ok_inj h in cc
  compose_drawn-seed fuel policy seed snapshot candidates input_digest digest selection
        (some lottery) plan h =
      let (made, there, h₁) =
        >>=-eq-ok
          (compose ext fuel policy seed snapshot candidates input_digest digest selection lottery) _
          h in
      compose-seed fuel policy seed snapshot candidates input_digest digest selection lottery plan
        (there ∙ ap ok (some_inj (ok_inj h₁)))

  pub plan_retirement-KeepsInputs :
      (fuel : ℕ) (policy : Policy) (seed : Seed32) (snapshot : RetirementSnapshot)
      (plan : RetirementPlan)
      → plan_retirement ext fuel policy seed snapshot ≡ ok (some plan)
      → KeepsInputs policy seed plan
  unfolding plan_retirement validate_snapshot
  plan_retirement-KeepsInputs fuel policy seed snapshot plan h =
      let (checked, h₁) = >>-eq-ok (validate_snapshot ext snapshot policy) _ h in
      let (committed, _) = >>-eq-ok (validate_poc_v1 policy) _ checked in
      let (valid, h₂) =
        >>-eq-ok (validate_candidates ext snapshot policy (sort_by by_atom_id snapshot.atoms)) _
          h₁ in
      let (input_digest, _, h₃) = >>=-eq-ok (retirement_input_digest ext snapshot) _ h₂ in
      let (digest, governed, h₄) = >>=-eq-ok (policy_digest ext policy) _ h₃ in
      let (selection, _, h₅) =
        >>=-eq-ok (select_semantic ext snapshot policy digest (sort_by by_atom_id snapshot.atoms)) _
          h₄ in
      let (drawn, _, h₆) =
        >>=-eq-ok (draw_episodes ext fuel policy seed (sort_by by_atom_id snapshot.atoms)) _ h₅ in
      let (seeded, same_digest) =
        compose_drawn-seed fuel policy seed snapshot _ input_digest digest selection drawn plan
          h₆ in
      (committed, seeded, governed ∙ ap ok same_digest)
