-- ===== src/Retirement/Score/Bounds.antt =====
-- The cohesion of a cluster in crates/naome-memory-core/src/retirement.rs.
use naome_memory.Base.{
  ◌∙◌, ℕ, ◌≤◌, ◌≡◌, ◌⊎◌, inl, inr, refl, List, [], ◌∷◌, min, arith, All, All-map, Has,
}
use naome_memory.Fixed.{Ppm, scale}
use naome_memory.Policy.{Policy}
use naome_memory.Atom.{MemoryAtomBody, RetirementCandidate}
use naome_memory.Retirement.Similarity.{semantic_similarity}
use naome_memory.Retirement.Score.{bodies_of, cohesion_with, cohesion_from, consolidation_score}

module _ (policy : Policy) where
  -- A value is at most the similarity of any two of the bodies.
  abbrev pub BelowPairs : Ppm → List MemoryAtomBody → Type 0
  BelowPairs c [] = Unit
  BelowPairs c (left ∷ tail) =
      All (λ right. c ≤ semantic_similarity policy left right) tail × BelowPairs c tail

  -- A value is the one given, or the similarity of two of the bodies.
  abbrev pub Attained : Ppm → Ppm → List MemoryAtomBody → Type 0
  Attained top c [] = c ≡ top
  Attained top c (left ∷ tail) =
      ((right : MemoryAtomBody) × Has right tail × (c ≡ semantic_similarity policy left right))
      ⊎ Attained top c tail

  cohesion_with-le :
      (left : MemoryAtomBody) (c : Ppm) (tail : List MemoryAtomBody)
      → (cohesion_with policy left c tail ≤ c)
        × All
            (λ right. cohesion_with policy left c tail ≤ semantic_similarity policy left right)
            tail
  unfolding cohesion_with
  cohesion_with-le left c [] = (omega arith, tt)
  cohesion_with-le left c (right ∷ tail) =
      let (below, all) =
        cohesion_with-le left (min c (semantic_similarity policy left right)) tail in
      (omega arith, (omega arith, all))

  cohesion_from-le :
      (c : Ppm) (bodies : List MemoryAtomBody)
      → (cohesion_from policy c bodies ≤ c) × BelowPairs (cohesion_from policy c bodies) bodies
  unfolding cohesion_from
  cohesion_from-le c [] = (omega arith, tt)
  cohesion_from-le c (left ∷ tail) =
      let (below, all) = cohesion_with-le left c tail in
      let (less, pairs) = cohesion_from-le (cohesion_with policy left c tail) tail in
      (omega arith, (All-map _ _ tail (λ right h. omega arith) all, pairs))

  cohesion_with-Attained :
      (left : MemoryAtomBody) (c : Ppm) (tail : List MemoryAtomBody)
      → (cohesion_with policy left c tail ≡ c)
        ⊎ ((right : MemoryAtomBody) × Has right tail
            × (cohesion_with policy left c tail ≡ semantic_similarity policy left right))
  unfolding cohesion_with
  cohesion_with-Attained left c [] = inl refl
  cohesion_with-Attained left c (right ∷ tail) =
      elim (cohesion_with-Attained left (min c (semantic_similarity policy left right)) tail) [
        | inl e ↦ elim (min-cases c (semantic_similarity policy left right)) [
          | inl f ↦ inl (e ∙ f)
          | inr f ↦ inr (right, inl refl, e ∙ f)
        ]
        | inr (r, m, e) ↦ inr (r, inr m, e)
      ]
    where
      min-cases : (a b : ℕ) → (min a b ≡ a) ⊎ (min a b ≡ b)
      min-cases a b = ground arith

  Attained-subst :
      (top mid c : Ppm) (left : MemoryAtomBody) (tail bodies : List MemoryAtomBody)
      → (mid ≡ top)
        ⊎ ((right : MemoryAtomBody) × Has right tail
            × (mid ≡ semantic_similarity policy left right))
      → Attained mid c bodies
      → ((right : MemoryAtomBody) × Has right tail × (c ≡ semantic_similarity policy left right))
        ⊎ Attained top c bodies
  Attained-subst top mid c left tail [] (inl e) a = inr (a ∙ e)
  Attained-subst top mid c left tail [] (inr (r, m, e)) a = inl (r, m, a ∙ e)
  Attained-subst top mid c left tail (b ∷ bs) h (inl p) = inr (inl p)
  Attained-subst top mid c left tail (b ∷ bs) h (inr a) =
      elim (Attained-subst top mid c left tail bs h a) [ inl p ↦ inl p | inr q ↦ inr (inr q) ]

  cohesion_from-Attained :
      (c : Ppm) (bodies : List MemoryAtomBody) → Attained c (cohesion_from policy c bodies) bodies
  unfolding cohesion_from
  cohesion_from-Attained c [] = refl
  cohesion_from-Attained c (left ∷ tail) =
      Attained-subst c (cohesion_with policy left c tail) _ left tail tail
        (cohesion_with-Attained left c tail)
        (cohesion_from-Attained (cohesion_with policy left c tail) tail)

  -- The cohesion in the score of a cluster is at most the similarity of any two of its bodies, and is 1 or
  -- the similarity of two of them; the total is at most 1.
  pub consolidation_score-cohesion :
      (candidates : List RetirementCandidate) (cluster : List ℕ)
      → BelowPairs
          (consolidation_score policy candidates cluster).cohesion
          (bodies_of candidates cluster)
        × Attained scale
            (consolidation_score policy candidates cluster).cohesion
            (bodies_of candidates cluster)
        × ((consolidation_score policy candidates cluster).total ≤ scale)
  unfolding consolidation_score
  consolidation_score-cohesion candidates cluster = (
    (cohesion_from-le scale (bodies_of candidates cluster)).1,
    cohesion_from-Attained scale (bodies_of candidates cluster),
    omega arith,
  )
