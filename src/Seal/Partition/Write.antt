-- ===== src/Seal/Partition/Write.antt =====
-- crates/naome-memory-core/src/seal.rs: the writes of one round of the loop of `plan_episode_ranges`.
use naome_memory.Base.{
  ℕ, suc, ◌+◌, ◌≤◌, ◌<◌, ◌≢◌, ◌≡◌, ◌∙◌, inl, inr, Bool, none, some, ◌==◌, set, length, arith,
  Bool-cases, refl, sym, ap, some_inj, subst, ==_iff,
}
use naome_memory.Seal.Prepared.{PreparedEpisodeEvents}
use naome_memory.Seal.Routes.{insert}
use naome_memory.Seal.Routes.Tree.{get_or-set_same, get_or-set_other, length-set}
use naome_memory.Seal.Routes.Store.{put, insert-Stores, leaf_count-insert}
use naome_memory.Seal.Partition.{RouteState}
use naome_memory.Seal.Partition.Segments.{Segment}
use naome_memory.Seal.Partition.Solved.{
  entry, choice_at, Stores-ext, IsSolved, Routed, IsSolved-ext,
}

module _ (prepared : PreparedEpisodeEvents) (shared : Bool)
    (first_base continued_base target : ℕ) where
  abbrev pub IsSegment : ℕ → ℕ → Type 0
  IsSegment = Segment prepared shared first_base continued_base target

  module _ (start : ℕ) (state : RouteState)
      (routed : Routed prepared shared first_base continued_base target (suc start) state) where
    -- A start from which no segment leads on.
    pub skip-Routed :
        ((end : ℕ) → IsSegment start end → entry state.remaining_segments end ≡ none)
        → Routed prepared shared first_base continued_base target start state
    skip-Routed dead = record {
      stored = routed.stored;
      room = routed.room;
      remaining_length = routed.remaining_length;
      next_length = routed.next_length;
      last = routed.last;
      few = routed.few;
      untouched = λ i h. routed.untouched i (omega arith);
      solved = λ i low high. elim (Bool-cases (start == i)) [
        | inl y ↦
            subst
              (IsSolved prepared shared first_base continued_base target
                (entry state.remaining_segments) (entry state.next_boundary))
              ((==_iff start i).0 y) (inl (routed.untouched start (omega arith), dead))
        | inr n ↦ routed.solved i (ground arith) high
      ];
    }

    abbrev pub written : ℕ → ℕ → RouteState
    written count end = record {
      routes = insert state.routes start count;
      remaining_segments = set state.remaining_segments start (some count);
      next_boundary = set state.next_boundary start (some end);
    }

    module _ (end after : ℕ) (inside : start < length prepared.digests)
        (segment : IsSegment start end) (after_eq : entry state.remaining_segments end ≡ some after)
        (least : (other count : ℕ)
          → IsSegment start other
          → entry state.remaining_segments other ≡ some count
          → (after ≤ count) × (after ≡ count → other ≤ end)) where
      later_remaining :
          (j : ℕ)
          → start ≢ j
          → entry (set state.remaining_segments start (some (suc after))) j
            ≡ entry state.remaining_segments j
      later_remaining j ne =
          get_or-set_other state.remaining_segments start j _ none
            (omega (arith, routed.remaining_length)) ne

      later_next :
          (j : ℕ)
          → start ≢ j
          → entry (set state.next_boundary start (some end)) j ≡ entry state.next_boundary j
      later_next j ne =
          get_or-set_other state.next_boundary start j _ none (omega (arith, routed.next_length)) ne

      own_remaining :
          entry (set state.remaining_segments start (some (suc after))) start ≡ some (suc after)
      own_remaining =
          get_or-set_same state.remaining_segments start start _ none
            (omega (arith, routed.remaining_length)) refl

      own_next : entry (set state.next_boundary start (some end)) start ≡ some end
      own_next =
          get_or-set_same state.next_boundary start start _ none (omega (arith, routed.next_length))
            refl

      put_choice :
          (i : ℕ)
          → put (λ j. choice_at (entry state.remaining_segments j) j) start (suc after) i
            ≡ choice_at (entry (set state.remaining_segments start (some (suc after))) i) i
      put_choice i = elim (Bool-cases (i == start)) [
        | inl y ↦
            let e = (==_iff i start).0 y in
            rw y (
              subst
                (λ k.
                  choice_at (some (suc after)) start
                  ≡ choice_at (entry (set state.remaining_segments start (some (suc after))) k) k)
                (sym e) (ap (λ o. choice_at o start) (sym own_remaining)))
        | inr n ↦ rw n (ap (λ o. choice_at o i) (sym (later_remaining i (λ e. ground arith))))
      ]

      written-few :
          (i m : ℕ)
          → i ≤ length prepared.digests
          → entry (set state.remaining_segments start (some (suc after))) i ≡ some m
          → m + i ≤ length prepared.digests
      written-few i m high h = elim (Bool-cases (start == i)) [
        | inl y ↦
            let e = (==_iff start i).0 y in
            let count = some_inj (
              sym own_remaining
              ∙ ap (entry (set state.remaining_segments start (some (suc after)))) e
              ∙ h) in
            let bound = routed.few end after segment.inside after_eq in
            omega (arith, segment.forward)
        | inr n ↦ routed.few i m high (sym (later_remaining i (λ e. ground arith)) ∙ h)
      ]

      written-IsSolved :
          (i : ℕ)
          → start ≤ i
          → i < length prepared.digests
          → IsSolved prepared shared first_base continued_base target
              (entry (set state.remaining_segments start (some (suc after))))
              (entry (set state.next_boundary start (some end)))
              i
      written-IsSolved i low high = elim (Bool-cases (start == i)) [
        | inl y ↦
            subst
              (IsSolved prepared shared first_base continued_base target
                (entry (set state.remaining_segments start (some (suc after))))
                (entry (set state.next_boundary start (some end))))
              ((==_iff start i).0 y)
              (inr (
                suc after,
                own_remaining,
                record {
                  end = end;
                  after = after;
                  next_eq = own_next;
                  count_eq = refl;
                  segment = segment;
                  after_eq = later_remaining end (λ e. omega (arith, segment.forward)) ∙ after_eq;
                  least = λ other count s f.
                      least other count s
                        (sym (later_remaining other (λ e. omega (arith, s.forward))) ∙ f);
                },
              ))
        | inr n ↦
            IsSolved-ext prepared shared first_base continued_base target _ _ _ _ start i
              (λ j h. later_remaining j (λ e. omega arith)) (λ j h. later_next j (λ e. omega arith))
              (ground arith) (routed.solved i (ground arith) high)
      ]

      pub write-Routed :
          Routed prepared shared first_base continued_base target start (written (suc after) end)
      write-Routed = record {
        stored = Stores-ext _ _ put_choice (
            insert-Stores state.routes _ routed.stored start (suc after)
              (omega (arith, routed.room)));
        room = omega (arith, routed.room, leaf_count-insert state.routes start (suc after));
        remaining_length = length-set state.remaining_segments start _ ∙ routed.remaining_length;
        next_length = length-set state.next_boundary start _ ∙ routed.next_length;
        last = later_remaining _ (λ e. omega arith) ∙ routed.last;
        few = written-few;
        untouched = λ i h. later_remaining i (λ e. omega arith) ∙ routed.untouched i (omega arith);
        solved = written-IsSolved;
      }
