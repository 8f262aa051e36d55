-- ===== src/Seal/Partition/Step.antt =====
-- crates/naome-memory-core/src/seal.rs: the loop over the starts of `plan_episode_ranges`.
use naome_memory.Base.{
  ℕ, zero, suc, ◌+◌, ◌-◌, ◌^◌, ◌≤◌, ◌<◌, ◌≡◌, ◌∙◌, inl, inr, Bool, none, some, length, arith,
  Option-cases, saturating_add, refl, sym, ap, subst, checked_add,
}
use naome_memory.Error.{ok}
use naome_memory.Seal.Prepared.{PreparedEpisodeEvents}
use naome_memory.Seal.Routes.{RouteChoice, best_in}
use naome_memory.Seal.Routes.Tree.{get_or-set_same}
use naome_memory.Seal.Routes.Store.{best_in-best_of, best_of}
use naome_memory.Seal.Routes.Best.{best_of-from, best_of-least, best_of-nothing}
use naome_memory.Seal.Partition.{RouteState, segment_ends, route_one, route_all}
use naome_memory.Seal.Partition.Segments.{IsPrepared, Ends, segment_ends-Ends}
use naome_memory.Seal.Partition.Solved.{entry, choice_at, choice_at-some, choice_at-none, Routed}
use naome_memory.Seal.Partition.Write.{skip-Routed, written, write-Routed}

count_up : (m : ℕ) → m ≤ 2 ^ 62 → checked_add m 1 ≡ some (suc m)
count_up m h = ground arith

module _ (prepared : PreparedEpisodeEvents) (shared : Bool)
    (first_base continued_base target : ℕ) where
  module _ (start : ℕ) (state : RouteState)
      (routed : Routed prepared shared first_base continued_base target (suc start) state) where
    -- A choice that the routes give at the ends of the segments from `start` is the best next boundary.
    chosen-BestNext :
        (low high : ℕ) (c : RouteChoice)
        → start < length prepared.digests
        → Ends prepared shared first_base continued_base target start (some (low, high))
        → best_in state.routes low (high + 1) ≡ some c
        → Routed prepared shared first_base continued_base target start (
            written prepared shared first_base continued_base target start state routed
              (suc c.remaining_segments)
              c.end)
    chosen-BestNext low high c inside (above, order, few, iff) e =
        let choices = λ (i : ℕ). choice_at (entry state.remaining_segments i) i in
        let range : best_of choices low (high + 1 - low) ≡ some c =
          sym (
            best_in-best_of state.routes choices low (high + 1) routed.stored (omega arith)
              (omega (arith, routed.room)))
          ∙ e in
        let (i, from, to, found) = best_of-from choices (high + 1 - low) low c range in
        let (count_eq, end_eq) = choice_at-some (entry state.remaining_segments i) i c found in
        let after_eq =
          subst (λ k. entry state.remaining_segments k ≡ some c.remaining_segments) end_eq
            count_eq in
        write-Routed prepared shared first_base continued_base target start state routed c.end
          c.remaining_segments inside ((iff c.end).1 (omega arith, omega arith)) after_eq
          (λ other count s f.
            let (l, h) = (iff other).0 s in
            best_of-least choices (high + 1 - low) low other c
              (record { remaining_segments = count; end = other }) range
              (ap (λ o. choice_at o other) f) l (omega arith))

    unchosen-Routed :
        (low high : ℕ)
        → Ends prepared shared first_base continued_base target start (some (low, high))
        → best_in state.routes low (high + 1) ≡ none
        → Routed prepared shared first_base continued_base target start state
    unchosen-Routed low high (above, order, few, iff) e =
        let choices = λ (i : ℕ). choice_at (entry state.remaining_segments i) i in
        let range : best_of choices low (high + 1 - low) ≡ none =
          sym (
            best_in-best_of state.routes choices low (high + 1) routed.stored (omega arith)
              (omega (arith, routed.room)))
          ∙ e in
        skip-Routed prepared shared first_base continued_base target start state routed (λ end s.
          let (l, h) = (iff end).0 s in
          choice_at-none (entry state.remaining_segments end) end
            (best_of-nothing choices (high + 1 - low) low end range l (omega arith)))

    add_one :
        (high : ℕ)
        → high ≤ length prepared.digests
        → suc (length prepared.digests) ≤ 2 ^ 62
        → saturating_add high 1 ≡ high + 1
    add_one high h k = omega arith

    -- One round gives no error, and solves one start more.
    pub route_one-Routed :
        IsPrepared prepared
        → start < length prepared.digests
        → (next : RouteState) × (route_one prepared shared first_base continued_base target start
              state
            ≡ ok next)
          × Routed prepared shared first_base continued_base target start next
    unfolding route_one
    route_one-Routed p inside =
        let ends =
          segment_ends-Ends prepared shared first_base continued_base target p start inside in
        elim (Option-cases (segment_ends prepared shared first_base continued_base target start)) [
          | inl e ↦ (
            state,
            rw (e, route_one) refl,
            skip-Routed prepared shared first_base continued_base target start state routed
                (λ end s. absurd ((rw e at ends) end s)),
          )
          | inr ((low, high), e) ↦
              let found : Ends prepared shared first_base continued_base target start
                  (some (low, high)) =
                rw e at ends in
              let one = add_one high found.2 p.count_small in
              elim (Option-cases (best_in state.routes low (high + 1))) [
                | inl f ↦ (state, rw (e, one, f, route_one) refl, unchosen-Routed low high found f)
                | inr (c, f) ↦
                    let next = chosen-BestNext low high c inside found f in
                    let bound = next.few start (suc c.remaining_segments) (omega arith) (
                      get_or-set_same state.remaining_segments start start _ none
                        (omega (arith, routed.remaining_length)) refl) in
                    let counted = count_up c.remaining_segments (omega (arith, p.count_small)) in
                    (
                      written prepared shared first_base continued_base target start state routed
                          (suc c.remaining_segments) c.end,
                      rw (e, one, f, counted, route_one) refl,
                      next,
                    )
              ]
        ]

  -- The loop over the starts below `count`.
  pub route_all-Routed :
      IsPrepared prepared
      → (count : ℕ) (state : RouteState) → count ≤ length prepared.digests
      → Routed prepared shared first_base continued_base target count state
      → (final : RouteState) × (route_all prepared shared first_base continued_base target count
            state
          ≡ ok final)
        × Routed prepared shared first_base continued_base target 0 final
  unfolding route_all
  route_all-Routed p zero state h routed = (state, refl, routed)
  route_all-Routed p (suc count) state h routed =
      let (next, e, r) = route_one-Routed count state routed p (omega arith) in
      let (final, f, done) = route_all-Routed p count next (omega arith) r in
      (final, rw (e) f, done)
