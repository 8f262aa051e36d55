-- ===== src/Retirement/Plan/Total.antt =====
-- The fuel of the plan in crates/naome-memory-core/src/retirement.rs.
use naome_memory.Base.{
  length-filterb, ℕ, ◌≤◌, ◌≡◌, ◌≢◌, sym, ap, ◌∙◌, List, Option, none, some, map, length, arith,
  sort_by,
}
use naome_memory.Base.Sort.{length-sort_by}
use naome_memory.Error.{ok, >>=-eq-ok, >>-eq-ok, ok_inj}
use naome_memory.Policy.{Policy}
use naome_memory.Atom.{Seed32, RetirementCandidate, Digest32}
use naome_memory.Externals.{Externals}
use naome_memory.Canonical.{canonical_binary}
use naome_memory.Digests.{checked_total, policy_digest}
use naome_memory.Retirement.Types.{RetirementSnapshot}
use naome_memory.Retirement.Lottery.{range}
use naome_memory.Retirement.Lottery.Uniform.{Accepts}
use naome_memory.Retirement.Lottery.Sampling.{partial_fisher_yates_total}
use naome_memory.Retirement.Lottery.Arrangement.{length-range}
use naome_memory.Retirement.Budget.{Selection, validate_episodic_budget}
use naome_memory.Retirement.Cohort.{
  validate_snapshot, validate_candidates, by_atom_id, retirement_input_digest,
}
use naome_memory.Retirement.Similarity.{body_at}
use naome_memory.Retirement.Plan.{
  Lottery, settle, draw_episodes, compose, compose_drawn, plan_retirement, select_semantic,
  winners_at, permitted_indices, is_exact, episodic_budget, body_permits,
}

some-ne-none : {A : Type 0} {a : A} → some a ≡ none → ⊥
some-ne-none e = cc

length-permitted_indices :
    (candidates : List RetirementCandidate)
    → length (permitted_indices is_exact candidates) ≤ length candidates
unfolding permitted_indices
length-permitted_indices candidates = omega (
  arith,
  length-filterb (λ i. body_permits is_exact (body_at candidates i)) (range (length candidates) 0),
  length-range (length candidates) 0,
)

module _ (ext : Externals) (fuel : ℕ) (policy : Policy) (seed : Seed32) where
  settle-ne-none :
      (candidates : List RetirementCandidate) (population positions : List ℕ) (digest : Digest32)
      (budget : ℕ)
      → settle ext fuel policy seed candidates population digest budget (some positions) ≢ ok none
  unfolding settle
  settle-ne-none candidates population positions digest budget h =
      let (bytes, _, h₁) =
        >>=-eq-ok
          (checked_total _ 0
            (map (λ c. c.exact_package_bytes) (winners_at candidates population positions)))
          _ h in
      let (_, h₂) = >>-eq-ok (validate_episodic_budget bytes policy) _ h₁ in
      some-ne-none (ok_inj h₂)

  draw_episodes_total :
      (candidates : List RetirementCandidate)
      → Accepts fuel (length candidates) (ext.next_u64 seed)
      → draw_episodes ext fuel policy seed candidates ≢ ok none
  unfolding draw_episodes
  draw_episodes_total candidates accepts h =
      let (bytes, _, h₁) = >>=-eq-ok (canonical_binary (ext.population_value _)) _ h in
      let population = permitted_indices is_exact candidates in
      let small = length-permitted_indices candidates in
      let (positions, e, _) =
        partial_fisher_yates_total fuel (ext.next_u64 seed) (length population)
          (episodic_budget ext fuel policy seed (length population))
          (λ position. let (n, less, there) = accepts position in (n, less, omega arith)) in
      settle-ne-none candidates population positions _ _
        (ap (settle ext fuel policy seed candidates population _ _) (sym e) ∙ h₁)

  -- A plan never exhausts its fuel, if any `fuel` outputs on end of the generator of its seed have one of
  -- at least the size of the cohort.
  pub plan_retirement_total :
      (snapshot : RetirementSnapshot)
      → Accepts fuel (length snapshot.atoms) (ext.next_u64 seed)
      → plan_retirement ext fuel policy seed snapshot ≢ ok none
  unfolding plan_retirement
  plan_retirement_total snapshot accepts h =
      let sorted = sort_by by_atom_id snapshot.atoms in
      let (_, h₁) = >>-eq-ok (validate_snapshot ext snapshot policy) _ h in
      let (_, h₂) = >>-eq-ok (validate_candidates ext snapshot policy sorted) _ h₁ in
      let (input_digest, _, h₃) = >>=-eq-ok (retirement_input_digest ext snapshot) _ h₂ in
      let (digest, _, h₄) = >>=-eq-ok (policy_digest ext policy) _ h₃ in
      let (selection, _, h₅) = >>=-eq-ok (select_semantic ext snapshot policy digest sorted) _ h₄ in
      let (drawn, lots, h₆) = >>=-eq-ok (draw_episodes ext fuel policy seed sorted) _ h₅ in
      composed input_digest digest selection drawn lots h₆
    where
      composed :
          (input_digest digest : Digest32) (selection : Selection) (drawn : Option Lottery)
          → draw_episodes ext fuel policy seed (sort_by by_atom_id snapshot.atoms) ≡ ok drawn
          → compose_drawn ext fuel policy seed snapshot
              (sort_by by_atom_id snapshot.atoms)
              input_digest
              digest
              selection
              drawn
            ≡ ok none
          → ⊥
      composed input_digest digest selection none lots e =
          let sized = length-sort_by by_atom_id snapshot.atoms in
          draw_episodes_total (sort_by by_atom_id snapshot.atoms)
            (λ position. let (n, less, there) = accepts position in (n, less, omega arith)) lots
      composed input_digest digest selection (some lottery) lots e =
          let (made, _, f) =
            >>=-eq-ok
              (compose ext fuel policy seed snapshot (sort_by by_atom_id snapshot.atoms)
                input_digest digest selection lottery)
              _ e in
          some-ne-none (ok_inj f)
