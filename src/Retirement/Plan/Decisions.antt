-- ===== src/Retirement/Plan/Decisions.antt =====
-- Decisions and budgets of the plan in crates/naome-memory-core/src/retirement.rs.
use naome_memory.Base.{
  ℕ, ◌≡◌, refl, ap, subst, not, ◌&&◌, ◌==◌, List, [], ◌∷◌, Option, none, some, map, min, length,
  All, filterb, sort_by, set_contains, nat_ord, some_inj, leb,
}
use naome_memory.Error.{ok, >>=-eq-ok, >>-eq-ok, ok_inj}
use naome_memory.Fixed.{ceil_count}
use naome_memory.Policy.{Policy}
use naome_memory.Atom.{AtomId, Seed32, RetirementCandidate, Digest32}
use naome_memory.Externals.{Externals}
use naome_memory.Digests.{policy_digest}
use naome_memory.Retirement.Types.{RetirementSnapshot, RetirementPlan, RetirementDecision}
use naome_memory.Retirement.Budget.{Selection}
use naome_memory.Retirement.Cohort.{
  validate_snapshot, validate_candidates, by_atom_id, retirement_input_digest,
}
use naome_memory.Retirement.Cohort.Valid.{IsRetiring, Increasing, validate_candidates-IsCohort}
use naome_memory.Retirement.PostState.{projected_post_state, post_state_digest}
use naome_memory.Retirement.Budget.Bounds.{WithinBudget, select_from-IsSelection}
use naome_memory.Retirement.Similarity.{complete_link_clusters}
use naome_memory.Base.Sort.{length-sort_by}
use naome_memory.Retirement.Plan.Draw.{IsDraw, draw_episodes-IsDraw}
use naome_memory.Retirement.Plan.{
  Lottery, winner_ids, draw_episodes, compose, compose_drawn, plan_retirement, decide_all,
  has_episode, semantic_sources, select_semantic, semantic_candidates_of, permitted_indices,
  is_consolidable, scores_before,
}

-- One decision for each candidate, in their order: what is retained exactly has won, and each episode that
-- has not is forgotten.
abbrev pub Decided : List AtomId → List RetirementDecision → List RetirementCandidate → Type 0
Decided winners [] [] = Unit
Decided winners [] (c ∷ cs) = ⊥
Decided winners (d ∷ ds) [] = ⊥
Decided winners (d ∷ ds) (c ∷ cs) =
    ((d.atom_id ≡ c.atom_id)
      × (d.exact_retained ≡ set_contains c.atom_id winners)
      × (d.forget_episode_body ≡ (has_episode c.body && not d.exact_retained)))
    × Decided winners ds cs

decide_all-Decided :
    (winners : List AtomId) (sources : List (AtomId × AtomId)) (cs : List RetirementCandidate)
    → Decided winners (decide_all winners sources cs) cs
unfolding decide_all
decide_all-Decided winners sources [] = tt
decide_all-Decided winners sources (c ∷ cs) = (
  (refl, refl, refl),
  decide_all-Decided winners (filterb (λ p. not (p.0 == c.atom_id)) sources) cs,
)

module _ (ext : Externals) (policy : Policy) where
  -- A plan that follows from a cohort: all may retire, each is decided, and the budgets hold.
  pub record IsPlan (snapshot : RetirementSnapshot) (plan : RetirementPlan) : Type 0 where
    pub retiring : All (IsRetiring ext snapshot policy) (sort_by by_atom_id snapshot.atoms)
    pub increasing : Increasing ext snapshot policy (sort_by by_atom_id snapshot.atoms)
    pub decided : Decided plan.episodic_winners plan.decisions (sort_by by_atom_id snapshot.atoms)
    pub winners : List RetirementCandidate
    pub named : plan.episodic_winners ≡ sort_by leb (map (λ c. c.atom_id) winners)
    pub draw :
        IsDraw policy
          (sort_by by_atom_id snapshot.atoms)
          plan.episodic_population_count
          plan.episodic_winner_budget
          plan.episodic_winner_bytes
          winners
    pub budgeted :
        plan.semantic_count_budget
        ≡ min (ceil_count policy.semantic_rate (length snapshot.atoms)) policy.semantic_count_max
    pub within : WithinBudget policy plan.semantic_count_budget (record {
      atoms = plan.semantic_atoms;
      decisions = plan.semantic_decisions;
      bytes = plan.semantic_body_bytes;
    })

  select_semantic-WithinBudget :
      (snapshot : RetirementSnapshot) (digest : Digest32) (candidates : List RetirementCandidate)
      (s : Selection)
      → select_semantic ext snapshot policy digest candidates ≡ ok s
      → WithinBudget policy
          (min (ceil_count policy.semantic_rate (length candidates)) policy.semantic_count_max)
          s
  unfolding select_semantic
  select_semantic-WithinBudget snapshot digest candidates s h =
      let (planned, _, h₁) =
        >>=-eq-ok
          (semantic_candidates_of ext snapshot policy digest candidates (
            complete_link_clusters policy candidates
              (permitted_indices is_consolidable candidates)))
          _ h in
      (select_from-IsSelection policy _ (sort_by scores_before planned) s h₁).0

  compose-IsPlan :
      (fuel : ℕ) (seed : Seed32) (snapshot : RetirementSnapshot) (input_digest digest : Digest32)
      (selection : Selection) (lottery : Lottery) (plan : RetirementPlan)
      → All (IsRetiring ext snapshot policy) (sort_by by_atom_id snapshot.atoms)
      → Increasing ext snapshot policy (sort_by by_atom_id snapshot.atoms)
      → IsDraw policy
          (sort_by by_atom_id snapshot.atoms)
          lottery.population_count
          lottery.budget
          lottery.bytes
          lottery.winners
      → WithinBudget policy
          (min
            (ceil_count policy.semantic_rate (length (sort_by by_atom_id snapshot.atoms)))
            policy.semantic_count_max)
          selection
      → compose ext fuel policy seed snapshot
          (sort_by by_atom_id snapshot.atoms)
          input_digest
          digest
          selection
          lottery
        ≡ ok plan
      → IsPlan snapshot plan
  unfolding compose
  compose-IsPlan fuel seed snapshot input_digest digest selection lottery plan retiring increasing
        draw within h =
      let (sources, _, h₁) = >>=-eq-ok (semantic_sources selection.atoms) _ h in
      let (state, _, h₂) =
        >>=-eq-ok (projected_post_state ext snapshot.memory_space_id _ _ selection.atoms) _ h₁ in
      let (state_digest, _, h₃) = >>=-eq-ok (post_state_digest ext state) _ h₂ in
      subst (IsPlan snapshot) (ok_inj h₃) (record {
        retiring = retiring;
        increasing = increasing;
        decided =
            decide_all-Decided (winner_ids lottery) sources (sort_by by_atom_id snapshot.atoms);
        winners = lottery.winners;
        named = refl;
        draw = draw;
        budgeted =
            ap (λ n. min (ceil_count policy.semantic_rate n) policy.semantic_count_max)
              (length-sort_by by_atom_id snapshot.atoms);
        within = within;
      })

  -- In a plan that is returned every candidate may retire with the cohort, and their identifiers strictly
  -- increase; there is one decision for each, in this order; a candidate is retained exactly just if it is
  -- among the winners, and an episode that is not is forgotten. The winners are drawn without replacement
  -- from the candidates that permit it, as many as the policy's rate and maximum give, or all where there are
  -- fewer, and the plan's winner bytes are the sum of their packages, within the pin budget. The semantic atoms are within the count that
  -- the policy's rate and maximum give, and within its sizes and bytes.
  pub plan_retirement-IsPlan :
      (fuel : ℕ) (seed : Seed32) (snapshot : RetirementSnapshot) (plan : RetirementPlan)
      → plan_retirement ext fuel policy seed snapshot ≡ ok (some plan)
      → IsPlan snapshot plan
  unfolding plan_retirement
  plan_retirement-IsPlan fuel seed snapshot plan h =
      let (_, h₁) = >>-eq-ok (validate_snapshot ext snapshot policy) _ h in
      let (valid, h₂) =
        >>-eq-ok (validate_candidates ext snapshot policy (sort_by by_atom_id snapshot.atoms)) _
          h₁ in
      let (input_digest, _, h₃) = >>=-eq-ok (retirement_input_digest ext snapshot) _ h₂ in
      let (digest, _, h₄) = >>=-eq-ok (policy_digest ext policy) _ h₃ in
      let (selection, selected, h₅) =
        >>=-eq-ok (select_semantic ext snapshot policy digest (sort_by by_atom_id snapshot.atoms)) _
          h₄ in
      let (drawn, lots, h₆) =
        >>=-eq-ok (draw_episodes ext fuel policy seed (sort_by by_atom_id snapshot.atoms)) _ h₅ in
      let (retiring, increasing) =
        validate_candidates-IsCohort ext snapshot policy snapshot.atoms valid in
      composed retiring increasing input_digest digest selection
        (select_semantic-WithinBudget snapshot digest (sort_by by_atom_id snapshot.atoms) selection
          selected)
        drawn lots h₆
    where
      composed :
          All (IsRetiring ext snapshot policy) (sort_by by_atom_id snapshot.atoms)
          → Increasing ext snapshot policy (sort_by by_atom_id snapshot.atoms)
          → (input_digest digest : Digest32) (selection : Selection)
          → WithinBudget policy
              (min
                (ceil_count policy.semantic_rate (length (sort_by by_atom_id snapshot.atoms)))
                policy.semantic_count_max)
              selection
          → (drawn : Option Lottery)
          → draw_episodes ext fuel policy seed (sort_by by_atom_id snapshot.atoms) ≡ ok drawn
          → compose_drawn ext fuel policy seed snapshot
              (sort_by by_atom_id snapshot.atoms)
              input_digest
              digest
              selection
              drawn
            ≡ ok (some plan)
          → IsPlan snapshot plan
      composed retiring increasing input_digest digest selection within none lots e =
          absurd (clash (ok_inj e))
        where
          clash : none ≡ some plan → ⊥
          clash e = cc
      composed retiring increasing input_digest digest selection within (some lottery) lots e =
          let (made, there, f) =
            >>=-eq-ok
              (compose ext fuel policy seed snapshot (sort_by by_atom_id snapshot.atoms)
                input_digest digest selection lottery)
              _ e in
          subst (IsPlan snapshot) (some_inj (ok_inj f)) (
            compose-IsPlan fuel seed snapshot input_digest digest selection lottery made retiring
              increasing
              (draw_episodes-IsDraw ext policy fuel seed (sort_by by_atom_id snapshot.atoms) lottery
                lots)
              within there)
