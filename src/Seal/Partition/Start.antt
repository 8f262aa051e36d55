-- ===== src/Seal/Partition/Start.antt =====
-- crates/naome-memory-core/src/seal.rs: what the loop of `plan_episode_ranges` starts with.
use naome_memory.Base.{
  ℕ, zero, suc, ◌+◌, ◌≤◌, ◌≢◌, ◌≡◌, ◌∙◌, inl, inr, Bool, Option, none, some, ◌==◌, set, length,
  arith, Bool-cases, saturating_add, refl, sym, ap, some_inj, ==_iff,
}
use naome_memory.Seal.Prepared.{PreparedEpisodeEvents}
use naome_memory.Seal.Routes.{insert, new_routes, nones}
use naome_memory.Seal.Routes.Tree.{get_or-set_same, get_or-set_other, length-set}
use naome_memory.Seal.Routes.Store.{
  put, insert-Stores, leaf_count-insert, leaf_count-new, new_routes-Stores,
}
use naome_memory.Seal.Partition.{route_start}
use naome_memory.Seal.Partition.Segments.{IsPrepared}
use naome_memory.Seal.Partition.Solved.{entry, choice_at, Stores-ext, Routed}

some-ne-none : {o : Option ℕ} {m : ℕ} → o ≡ some m → o ≡ none → ⊥
some-ne-none h e = cc

module _ (prepared : PreparedEpisodeEvents) (shared : Bool)
    (first_base continued_base target : ℕ) where
  length-nones : (n : ℕ) → length (nones {A = ℕ} n) ≡ n
  unfolding nones
  length-nones zero = refl
  length-nones (suc n) = ap suc (length-nones n)

  entry-nones : (n i : ℕ) → entry (nones n) i ≡ none
  unfolding nones
  entry-nones zero i = refl
  entry-nones (suc n) zero = refl
  entry-nones (suc n) (suc i) = entry-nones n i

  -- What the loop starts with, its vectors of `width` entries.
  module _ (p : IsPrepared prepared) (width : ℕ)
      (wide : width ≡ suc (length prepared.digests)) where
    first_other :
        (i : ℕ)
        → length prepared.digests ≢ i
        → entry (set (nones width) (length prepared.digests) (some 0)) i ≡ none
    first_other i ne =
        get_or-set_other (nones width) (length prepared.digests) i _ none
          (omega (arith, length-nones width)) ne
        ∙ entry-nones width i

    first_own :
        (i : ℕ)
        → length prepared.digests ≡ i
        → entry (set (nones width) (length prepared.digests) (some 0)) i ≡ some 0
    first_own i e =
        get_or-set_same (nones width) (length prepared.digests) i _ none
          (omega (arith, length-nones width)) e

    first_choice :
        (i : ℕ)
        → put (λ j. none) (length prepared.digests) 0 i
          ≡ choice_at (entry (set (nones width) (length prepared.digests) (some 0)) i) i
    first_choice i = elim (Bool-cases (i == length prepared.digests)) [
      | inl y ↦
          let e = (==_iff i (length prepared.digests)).0 y in
          rw y (
            ap (λ k. some (record { remaining_segments = 0; end = k })) (sym e)
            ∙ ap (λ o. choice_at o i) (sym (first_own i (sym e))))
      | inr n ↦ rw n (ap (λ o. choice_at o i) (sym (first_other i (λ e. ground arith))))
    ]

    first-few :
        (i m : ℕ)
        → i ≤ length prepared.digests
        → entry (set (nones width) (length prepared.digests) (some 0)) i ≡ some m
        → m + i ≤ length prepared.digests
    first-few i m high h = elim (Bool-cases (length prepared.digests == i)) [
      | inl y ↦
          let count = some_inj (sym (first_own i ((==_iff (length prepared.digests) i).0 y)) ∙ h) in
          omega arith
      | inr n ↦ let e = first_other i (λ e. ground arith) in absurd (some-ne-none h e)
    ]

    width-Routed :
        Routed prepared shared first_base continued_base target (length prepared.digests) (record {
          routes = insert (new_routes width) (length prepared.digests) 0;
          remaining_segments = set (nones width) (length prepared.digests) (some 0);
          next_boundary = nones width;
        })
    width-Routed =
        let empty = new_routes-Stores width (omega arith) (omega (arith, p.count_small)) in
        let wide_enough = leaf_count-new width in
        record {
          stored =
              Stores-ext _ _ first_choice (
                insert-Stores (new_routes width) _ empty (length prepared.digests) 0 (omega arith));
          room = omega (arith, leaf_count-insert (new_routes width) (length prepared.digests) 0);
          remaining_length = length-set (nones width) _ _ ∙ length-nones width ∙ wide;
          next_length = length-nones width ∙ wide;
          last = first_own _ refl;
          few = first-few;
          untouched = λ i h. first_other i (λ e. omega arith);
          solved = λ i low high. absurd (omega arith);
        }

  pub route_start-Routed :
      IsPrepared prepared
      → Routed prepared shared first_base continued_base target
          (length prepared.digests)
          (route_start (length prepared.digests))
  unfolding route_start
  route_start-Routed p =
      width-Routed p (saturating_add (length prepared.digests) 1) (omega (arith, p.count_small))
