-- ===== src/Retirement/Plan/Draw.antt =====
-- The lottery of crates/naome-memory-core/src/retirement.rs: who wins, and what the winners weigh.
use mathlib.Core.List.{Permᴰ}
use mathlib.Core.List.Permᴰ as Permᴰ
use naome_memory.Base.{
  true, false, Bool, Option, ℕ, ◌≤◌, ◌≡◌, refl, sym, ap, ◌∙◌, subst, List, [], ◌++◌, none, some,
  map, min, length, arith, filterb, filter_map, get_elem?, some_inj, ltb, Option-cases, inl, inr,
}
use naome_memory.Error.{ok, >>=-eq-ok, >>-eq-ok, reject_if-last, ok_inj}
use naome_memory.Fixed.{ceil_count}
use naome_memory.Policy.{Policy}
use naome_memory.Atom.{
  Seed32, RetirementCandidate, Digest32, MemoryAtomBody, transient_only, semantic_allowed,
  semantic_and_exact_allowed,
}
use naome_memory.Externals.{Externals}
use naome_memory.Canonical.{canonical_binary}
use naome_memory.Digests.{checked_total}
use naome_memory.Digests.Sizes.{sum, checked_total-eq-sum}
use naome_memory.Retirement.Budget.{validate_episodic_budget}
use naome_memory.Retirement.Lottery.{partial_fisher_yates}
use naome_memory.Retirement.Lottery.Sampling.{IsSample, partial_fisher_yates-IsSample}
use naome_memory.Retirement.Lottery.Picks.{
  sample-part, filter_map-Permᴰ, filter_map-append, elements-filterb, length-elements-filterb,
}
use naome_memory.Retirement.Similarity.{body_at}
use naome_memory.Retirement.Plan.{
  Lottery, settle, draw_episodes, winners_at, permitted_indices, is_exact, body_permits,
  episodic_budget,
}

-- Whether the permission of a candidate allows that it is retained exactly.
abbrev pub allows_exact : Option MemoryAtomBody → Bool
allows_exact none = false
allows_exact (some body) = elim body.retention_permission [
  | transient_only ↦ false
  | semantic_allowed ↦ false
  | semantic_and_exact_allowed ↦ true
]

abbrev pub exact_candidates : List RetirementCandidate → List RetirementCandidate
exact_candidates candidates = filterb (λ c. allows_exact c.body) candidates

-- The winners are drawn without replacement from the exact candidates, as many as the policy draws, and
-- their packages fit together into the pin budget.
pub record IsDraw (policy : Policy) (candidates : List RetirementCandidate)
    (population_count budget bytes : ℕ) (winners : List RetirementCandidate) : Type 0 where
  pub counted : population_count ≡ length (exact_candidates candidates)
  pub budgeted :
      budget ≡ min (ceil_count policy.episodic_rate population_count) policy.episodic_count_max
  pub sized : length winners ≡ min budget population_count
  pub losers : List RetirementCandidate
  pub part : Permᴰ (winners ++ losers) (exact_candidates candidates)
  pub weighed : bytes ≡ sum (map (λ c. c.exact_package_bytes) winners)
  pub pinned : bytes ≤ policy.episodic_pin_budget_bytes

permitted_elements :
    (candidates : List RetirementCandidate)
    → filter_map (get_elem? candidates) (permitted_indices is_exact candidates)
      ≡ exact_candidates candidates
unfolding permitted_indices
permitted_elements candidates =
    elements-filterb (λ o. body_permits is_exact (elim o [ none ↦ none | some c ↦ c.body ]))
      candidates

length-permitted :
    (candidates : List RetirementCandidate) (positions left : List ℕ)
    → Permᴰ (positions ++ left) (permitted_indices is_exact candidates)
    → length (filter_map (get_elem? candidates) positions) ≡ length positions
unfolding permitted_indices
length-permitted candidates positions left p =
    length-elements-filterb candidates (λ i. body_permits is_exact (body_at candidates i)) positions
      left p

module _ (ext : Externals) (policy : Policy) where
  settle-IsDraw :
      (fuel : ℕ) (seed : Seed32) (candidates : List RetirementCandidate) (digest : Digest32)
      (budget : ℕ) (positions : List ℕ) (lottery : Lottery)
      → IsSample (length (permitted_indices is_exact candidates)) budget positions
      → budget
        ≡ min
            (ceil_count policy.episodic_rate (length (permitted_indices is_exact candidates)))
            policy.episodic_count_max
      → settle ext fuel policy seed candidates
          (permitted_indices is_exact candidates)
          digest
          budget
          (some positions)
        ≡ ok (some lottery)
      → IsDraw policy candidates lottery.population_count lottery.budget lottery.bytes
          lottery.winners
  unfolding settle validate_episodic_budget winners_at
  settle-IsDraw fuel seed candidates digest budget positions lottery sample budgeted h =
      let population = permitted_indices is_exact candidates in
      let (bytes, totalled, h₁) =
        >>=-eq-ok
          (checked_total _ 0
            (map (λ c. c.exact_package_bytes) (winners_at candidates population positions)))
          _ h in
      let (fits, h₂) = >>-eq-ok (validate_episodic_budget bytes policy) _ h₁ in
      let small = reject_if-last (ltb policy.episodic_pin_budget_bytes bytes) _ fits in
      let (many, (left, p)) = sample-part population budget positions sample in
      let picked = filter_map (get_elem? population) positions in
      let elements = filter_map-append (get_elem? candidates) picked left in
      let part =
        subst
          (Permᴰ
            (filter_map (get_elem? candidates) picked ++ filter_map (get_elem? candidates) left))
          (permitted_elements candidates)
          (subst (λ cs. Permᴰ cs (filter_map (get_elem? candidates) population)) elements
            (filter_map-Permᴰ (get_elem? candidates) p)) in
      let counted : length population ≡ length (exact_candidates candidates) =
        sym (length-permitted candidates population [] (Permᴰ.append-nil population))
        ∙ ap length (permitted_elements candidates) in
      subst
        (λ (l : Lottery). IsDraw policy candidates l.population_count l.budget l.bytes l.winners)
        (some_inj (ok_inj h₂))
        (record {
          counted = counted;
          budgeted = budgeted;
          sized = length-permitted candidates picked left p ∙ many;
          losers = filter_map (get_elem? candidates) left;
          part = part;
          weighed = omega (
            arith,
            checked_total-eq-sum _ 0
                (map (λ c. c.exact_package_bytes) (winners_at candidates population positions))
                totalled,
          );
          pinned = ground arith;
        })

  none-ne-drawn : {lottery : Lottery} → none ≡ some lottery → ⊥
  none-ne-drawn e = cc

  pub draw_episodes-IsDraw :
      (fuel : ℕ) (seed : Seed32) (candidates : List RetirementCandidate) (lottery : Lottery)
      → draw_episodes ext fuel policy seed candidates ≡ ok (some lottery)
      → IsDraw policy candidates lottery.population_count lottery.budget lottery.bytes
          lottery.winners
  unfolding draw_episodes episodic_budget settle
  draw_episodes-IsDraw fuel seed candidates lottery h =
      let (bytes, _, h₁) = >>=-eq-ok (canonical_binary (ext.population_value _)) _ h in
      let count = length (permitted_indices is_exact candidates) in
      let budget = min (ceil_count policy.episodic_rate count) policy.episodic_count_max in
      elim (Option-cases (partial_fisher_yates fuel (ext.next_u64 seed) count budget)) [
        | inl stuck ↦ absurd (none-ne-drawn (ok_inj (rw (stuck, settle) at h₁)))
        | inr (positions, drawn) ↦
            settle-IsDraw fuel seed candidates _ budget positions lottery
              (partial_fisher_yates-IsSample fuel (ext.next_u64 seed) count budget positions drawn)
              refl (rw (drawn, settle) at h₁)
      ]
