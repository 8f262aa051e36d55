-- ===== src/Retirement/Score.antt =====
-- crates/naome-memory-core/src/retirement.rs: the consolidation score of a cluster.
pub mod Bounds
use mathlib.Core.Option
use naome_memory.Base.{
  ℕ, ◌+◌, ◌-◌, String, List, [], ◌∷◌, Option, none, some, map, length, min, filter_map, get_elem?,
  set_of, string_ord,
}
use naome_memory.Fixed.{Ppm, scale, ratio, multiply, mean}
use naome_memory.Policy.{Policy}
use naome_memory.Atom.{MemoryAtomBody, RetirementCandidate, ConsolidationScore, validated_utility}
use naome_memory.Retirement.Similarity.{body_at, semantic_similarity}

-- The bodies of a cluster.
abbrev pub bodies_of : List RetirementCandidate → List ℕ → List MemoryAtomBody
bodies_of candidates cluster = filter_map (body_at candidates) cluster

-- The number of distinct sessions of some bodies.
unfoldable pub session_count : List MemoryAtomBody → ℕ
unfolding set_of
session_count bodies = length (set_of (map (λ b. b.scope.session_id) bodies))

module _ (policy : Policy) where
  -- The inner loop, over the bodies after `left`.
  unfoldable pub cohesion_with : MemoryAtomBody → Ppm → List MemoryAtomBody → Ppm
  unfolding semantic_similarity
  cohesion_with left cohesion [] = cohesion
  cohesion_with left cohesion (right ∷ tail) =
      cohesion_with left (min cohesion (semantic_similarity policy left right)) tail

  -- The least similarity of two of the bodies, and at most the one given.
  unfoldable pub cohesion_from : Ppm → List MemoryAtomBody → Ppm
  unfolding cohesion_with
  cohesion_from cohesion [] = cohesion
  cohesion_from cohesion (left ∷ tail) = cohesion_from (cohesion_with left cohesion tail) tail

  unfoldable pub consolidation_score : List RetirementCandidate → List ℕ → ConsolidationScore
  unfolding ratio session_count mean validated_utility cohesion_from multiply
  consolidation_score candidates cluster =
      let bodies = bodies_of candidates cluster in
      let support = ratio (length bodies) policy.support_saturation_atoms in
      let diversity = ratio (session_count bodies) (length bodies) in
      let utility = mean (
        filter_map (λ i. Option.map (λ c. validated_utility c.state) (get_elem? candidates i))
          cluster) in
      let salience = mean (map (λ b. b.formation_signals.salience) bodies) in
      let novelty = mean (map (λ b. b.formation_signals.novelty) bodies) in
      let uncertainty = mean (map (λ b. b.formation_signals.uncertainty) bodies) in
      let cohesion = cohesion_from scale bodies in
      let positive =
        multiply policy.consolidation_support_weight support
        + multiply policy.consolidation_diversity_weight diversity
        + multiply policy.consolidation_utility_weight utility
        + multiply policy.consolidation_salience_weight salience
        + multiply policy.consolidation_cohesion_weight cohesion
        + multiply policy.consolidation_novelty_weight novelty in
      let negative = multiply policy.consolidation_uncertainty_weight uncertainty in
      record {
        support = support;
        diversity = diversity;
        utility = utility;
        salience = salience;
        cohesion = cohesion;
        novelty = novelty;
        uncertainty = uncertainty;
        total = min (positive - negative) scale;
      }
