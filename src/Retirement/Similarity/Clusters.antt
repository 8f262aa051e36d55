-- ===== src/Retirement/Similarity/Clusters.antt =====
-- The clusters of crates/naome-memory-core/src/retirement.rs as a partition of the indices.
use naome_memory.Base.{
  ℕ, ◌≡◌, Bool, true, List, [], ◌∷◌, ◌++◌, allb, All, Bool-cases, inl, inr, allb-true,
}
use mathlib.Core.List.{flatten, Perm, append-nil, append_assoc, perm_middle}
use mathlib.Core.List.Perm
use naome_memory.Policy.{Policy}
use naome_memory.Atom.{RetirementCandidate}
use naome_memory.Retirement.Similarity.{linked, place, place_all, complete_link_clusters}

module _ (link : ℕ → ℕ → Bool) where
  -- Each member is linked to all that joined its cluster before it.
  abbrev pub Complete : List ℕ → List ℕ → Type 0
  Complete earlier [] = Unit
  Complete earlier (m ∷ ms) = All (λ e. link m e ≡ true) earlier × Complete (earlier ++ m ∷ []) ms

  Complete-snoc :
      (earlier ms : List ℕ) (i : ℕ)
      → Complete earlier ms
      → All (λ e. link i e ≡ true) (earlier ++ ms)
      → Complete earlier (ms ++ i ∷ [])
  Complete-snoc earlier [] i h k = (rw append-nil at k, tt)
  Complete-snoc earlier (m ∷ ms) i h k =
      (h.0, Complete-snoc (earlier ++ m ∷ []) ms i h.1 (rw append_assoc k))

  place-Complete :
      (i : ℕ) (clusters : List (List ℕ))
      → All (Complete []) clusters
      → All (Complete []) (place link i clusters)
  unfolding place
  place-Complete i [] h = ((tt, tt), tt)
  place-Complete i (c ∷ clusters) h = elim (Bool-cases (allb (link i) c)) [
    | inl e ↦ rw e (Complete-snoc [] c i h.0 (allb-true (link i) c e), h.1)
    | inr e ↦ rw e (h.0, place-Complete i clusters h.1)
  ]

  pub place_all-Complete :
      (clusters : List (List ℕ)) (indices : List ℕ)
      → All (Complete []) clusters
      → All (Complete []) (place_all link clusters indices)
  unfolding place_all
  place_all-Complete clusters [] h = h
  place_all-Complete clusters (i ∷ indices) h =
      place_all-Complete (place link i clusters) indices (place-Complete i clusters h)

  place-perm :
      (i : ℕ) (clusters : List (List ℕ))
      → Perm (flatten (place link i clusters)) (i ∷ flatten clusters)
  unfolding place flatten
  place-perm i [] = Perm.refl _
  place-perm i (c ∷ clusters) = elim (Bool-cases (allb (link i) c)) [
    | inl e ↦ rw e (rw append_assoc (perm_middle c (flatten clusters)))
    | inr e ↦
        rw e (
          Perm.trans (Perm.append_left c (place-perm i clusters))
            (perm_middle c (flatten clusters)))
  ]

  pub place_all-perm :
      (clusters : List (List ℕ)) (indices : List ℕ)
      → Perm (flatten (place_all link clusters indices)) (flatten clusters ++ indices)
  unfolding place_all flatten
  place_all-perm clusters [] = rw append-nil (Perm.refl _)
  place_all-perm clusters (i ∷ indices) =
      Perm.trans (place_all-perm (place link i clusters) indices) (
        Perm.trans (Perm.append_right indices (place-perm i clusters))
          (Perm.symm (perm_middle (flatten clusters) indices)))

-- Every index lies in just one cluster, and each member of a cluster is linked to all that joined it
-- before.
pub complete_link_clusters-partition :
    (policy : Policy) (candidates : List RetirementCandidate) (indices : List ℕ)
    → let clusters = complete_link_clusters policy candidates indices in
      Perm (flatten clusters) indices × All (Complete (linked policy candidates) []) clusters
unfolding complete_link_clusters flatten
complete_link_clusters-partition policy candidates indices = (
  place_all-perm (linked policy candidates) [] indices,
  place_all-Complete (linked policy candidates) [] indices tt,
)
