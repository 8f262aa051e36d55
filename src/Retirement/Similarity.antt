-- ===== src/Retirement/Similarity.antt =====
-- crates/naome-memory-core/src/retirement.rs: the similarity of two bodies, and the complete-link
-- clusters that it makes. `jaccard` is also that of retrieval.rs.
pub mod Clusters
use naome_memory.Base.{
  ℕ, zero, suc, ◌+◌, String, Bool, true, false, not, ◌&&◌, List, [], ◌∷◌, ◌++◌, Option, none, some,
  leb, ◌==◌, if◌then◌else◌, str_eq, str_empty, allb, get_elem?, union_count, intersection_count,
  string_ord,
}
use naome_memory.Fixed.{Ppm, scale, ratio, multiply, sum_capped}
use naome_memory.Policy.{Policy}
use naome_memory.Atom.{MemoryAtomBody, RetirementCandidate}

unfoldable pub jaccard : List String → List String → Ppm
unfolding union_count intersection_count ratio
jaccard left right =
    if union_count left right == 0
    then 0
    else ratio (intersection_count left right) (union_count left right)

-- Both classes are given, not empty, and the same.
unfoldable pub same_outcome : Option String → Option String → Bool
same_outcome none right = false
same_outcome (some left) none = false
same_outcome (some left) (some right) = not (str_empty left) && str_eq left right

-- `candidates[index].body`; an index comes of the enumeration of the candidates.
abbrev pub body_at : List RetirementCandidate → ℕ → Option MemoryAtomBody
body_at candidates index = elim (get_elem? candidates index) [
  | none ↦ none
  | some candidate ↦ candidate.body
]

module _ (policy : Policy) where
  unfoldable pub semantic_similarity : MemoryAtomBody → MemoryAtomBody → Ppm
  unfolding jaccard same_outcome multiply sum_capped
  semantic_similarity left right = sum_capped (
      multiply policy.similarity_topic_weight (jaccard left.topic_keys right.topic_keys)
      ∷ multiply policy.similarity_entity_weight (jaccard left.entity_ids right.entity_ids)
      ∷ multiply policy.similarity_outcome_weight
          (if same_outcome left.outcome_class right.outcome_class then scale else 0)
      ∷ [])

  abbrev pub linked_bodies : Option MemoryAtomBody → Option MemoryAtomBody → Bool
  unfolding semantic_similarity
  linked_bodies none right = false
  linked_bodies (some left) none = false
  linked_bodies (some left) (some right) =
      leb policy.cluster_similarity_threshold (semantic_similarity left right)

  -- Whether two candidates, by their indices, may share a cluster.
  unfoldable pub linked : List RetirementCandidate → ℕ → ℕ → Bool
  unfolding semantic_similarity
  linked candidates index member =
      linked_bodies (body_at candidates index) (body_at candidates member)

-- The inner loop of `complete_link_clusters`: the first cluster of which every member is linked to the
-- index takes it, and else it begins a new one.
unfoldable pub place : (ℕ → ℕ → Bool) → ℕ → List (List ℕ) → List (List ℕ)
place link index [] = (index ∷ []) ∷ []
place link index (cluster ∷ clusters) =
    if allb (link index) cluster
    then (cluster ++ index ∷ []) ∷ clusters
    else cluster ∷ place link index clusters

unfoldable pub place_all : (ℕ → ℕ → Bool) → List (List ℕ) → List ℕ → List (List ℕ)
unfolding place
place_all link clusters [] = clusters
place_all link clusters (index ∷ indices) = place_all link (place link index clusters) indices

unfoldable pub complete_link_clusters : Policy → List RetirementCandidate → List ℕ → List (List ℕ)
unfolding place_all linked
complete_link_clusters policy candidates indices = place_all (linked policy candidates) [] indices
