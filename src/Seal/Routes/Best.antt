-- ===== src/Seal/Routes/Best.antt =====
-- crates/naome-memory-core/src/seal.rs: the choice that `best_in` gives, among the choices it looks at.
use naome_memory.Base.{
  ℕ, zero, suc, ◌+◌, ◌≤◌, ◌<◌, ◌≡◌, ◌∙◌, sym, ap, inl, inr, Option, none, some, arith, Bool-cases,
  ◌==◌, ==_iff,
}
use naome_memory.Seal.Routes.{RouteChoice, best_route_choice}
use naome_memory.Seal.Routes.Choice.{best_assoc, best_comm, best_self, best-cases, kept-le}
use naome_memory.Seal.Routes.Store.{best_of}

module _ (choice : ℕ → Option RouteChoice) where
  -- Every choice of the range is absorbed.
  pub best_of-absorbs :
      (count start i : ℕ)
      → start ≤ i
      → i < start + count
      → best_route_choice (best_of choice start count) (choice i) ≡ best_of choice start count
  unfolding best_of
  best_of-absorbs zero start i low high = absurd (omega arith)
  best_of-absorbs (suc count) start i low high =
      let rest = best_of choice (suc start) count in
      elim (Bool-cases (start == i)) [
        | inl e ↦
            let same = ap choice ((==_iff start i).0 e) in
            let one = best_comm (best_route_choice (choice start) rest) (choice start) in
            let two = best_assoc (choice start) (choice start) rest in
            let three = best_self (choice start) in cc
        | inr n ↦
            let inner = best_of-absorbs count (suc start) i (ground arith) (omega arith) in
            best_assoc (choice start) rest (choice i) ∙ ap (best_route_choice (choice start)) inner
      ]

  -- The best of a range that is not empty is one of the choices.
  pub best_of-from :
      (count start : ℕ) (c : RouteChoice)
      → best_of choice start count ≡ some c
      → (i : ℕ) × (start ≤ i) × (i < start + count) × (choice i ≡ some c)
  unfolding best_of
  best_of-from zero start c h = cc
  best_of-from (suc count) start c h =
      elim (best-cases (choice start) (best_of choice (suc start) count)) [
        | inl e ↦ (start, omega arith, omega arith, sym e ∙ h)
        | inr e ↦
            let (i, low, high, found) = best_of-from count (suc start) c (sym e ∙ h) in
            (i, omega arith, omega arith, found)
      ]

  pub best_of-least :
      (count start i : ℕ) (c d : RouteChoice)
      → best_of choice start count ≡ some c
      → choice i ≡ some d
      → start ≤ i
      → i < start + count
      → (c.remaining_segments ≤ d.remaining_segments)
        × (c.remaining_segments ≡ d.remaining_segments → d.end ≤ c.end)
  best_of-least count start i c d h e low high =
      let absorbed = best_of-absorbs count start i low high in kept-le c d (rw (h, e) at absorbed)

  pub best_of-nothing :
      (count start i : ℕ)
      → best_of choice start count ≡ none
      → start ≤ i
      → i < start + count
      → choice i ≡ none
  unfolding best_route_choice
  best_of-nothing count start i h low high =
      let absorbed = best_of-absorbs count start i low high in rw h at absorbed
