-- ===== src/Seal/Partition/Optimal.antt =====
-- crates/naome-memory-core/src/seal.rs: the ranges that `plan_episode_ranges` gives.
use naome_memory.Base.{
  ℕ, zero, suc, ◌+◌, ◌≤◌, ◌<◌, ◌≡◌, ◌∙◌, ◌⊎◌, inl, inr, Bool, true, List, [], ◌∷◌, some, ◌==◌,
  length, arith, Bool-cases, Option-cases, saturating_add, refl, sym, ap, some_inj, subst, ==_iff,
  ltb, ltb→lt,
}
use naome_memory.Error.{ok, err, episode_requires_split, err-ne-ok, ok_inj, err_inj, MemoryError}
use naome_memory.Seal.Types.{SealEpisodeRequest}
use naome_memory.Seal.Prepared.{PreparedEpisodeEvents}
use naome_memory.Seal.Partition.{
  RouteState, collect_ranges, validate_partition_boundary, plan_episode_ranges, shared_substantive,
}
use naome_memory.Seal.Partition.Segments.{IsPrepared, Segment}
use naome_memory.Seal.Partition.Solved.{entry, Routed, BestNext}
use naome_memory.Seal.Partition.Step.{route_all-Routed}
use naome_memory.Seal.Partition.Start.{route_start-Routed}

-- The ends of the ranges, in order, are no earlier than those of the others.
abbrev pub IsLatest : List (ℕ × ℕ) → List (ℕ × ℕ) → Type 0
IsLatest [] others = Unit
IsLatest ((a, b) ∷ rest) [] = Unit
IsLatest ((a, b) ∷ rest) ((c, d) ∷ others) = (d < b) ⊎ ((d ≡ b) × IsLatest rest others)

module _ (prepared : PreparedEpisodeEvents) (shared : Bool)
    (first_base continued_base target : ℕ) where
  -- The ranges are segments, each of which starts where the one before it ended, up to the last event.
  abbrev pub IsPartition : ℕ → List (ℕ × ℕ) → Type 0
  IsPartition start [] = start ≡ length prepared.digests
  IsPartition start ((a, b) ∷ rest) =
      (a ≡ start)
      × Segment prepared shared first_base continued_base target a b
      × IsPartition b rest

  module _ (state : RouteState)
      (routed : Routed prepared shared first_base continued_base target 0 state) where
    -- A start with a partition has a number of remaining segments, which is no larger.
    reached :
        (start : ℕ) (ranges : List (ℕ × ℕ))
        → IsPartition start ranges
        → (m : ℕ) × (entry state.remaining_segments start ≡ some m) × (m ≤ length ranges)
    reached start [] e = (0, ap (entry state.remaining_segments) e ∙ routed.last, omega arith)
    reached start ((a, b) ∷ rest) (e, s, q) =
        let (count, f, few) = reached b rest q in
        let s' = subst (λ k. Segment prepared shared first_base continued_base target k b) e s in
        elim (routed.solved start (omega arith) (omega (arith, s'.forward, s'.inside))) [
          | inl (none_here, dead) ↦ let g = dead b s' in cc
          | inr (m, g, best) ↦
              let (least, later) = best.least b count s' f in (m, g, omega (arith, best.count_eq))
        ]

    ended :
        (start m : ℕ)
        → start ≡ length prepared.digests
        → entry state.remaining_segments start ≡ some m
        → 0 ≡ m
    ended start m last e =
        some_inj (sym routed.last ∙ sym (ap (entry state.remaining_segments) last) ∙ e)

    boundary :
        (start end : ℕ)
        → start < end
        → end ≤ length prepared.digests
        → validate_partition_boundary start end (length prepared.digests) ≡ ok tt
    unfolding validate_partition_boundary
    boundary start end forward inside = ground arith

    collect_next :
        (fuel start end : ℕ) (rest : List (ℕ × ℕ))
        → ltb start (length prepared.digests) ≡ true
        → entry state.next_boundary start ≡ some end
        → validate_partition_boundary start end (length prepared.digests) ≡ ok tt
        → collect_ranges fuel state.next_boundary (length prepared.digests) target end ≡ ok rest
        → collect_ranges (suc fuel) state.next_boundary (length prepared.digests) target start
          ≡ ok ((start, end) ∷ rest)
    unfolding collect_ranges
    collect_next fuel start end rest y next passed f = rw (y, next, passed, f, collect_ranges) refl

    -- Among the partitions of the same length, the ranges after the best next boundary are the latest.
    later :
        (start m m' : ℕ)
        → (best : BestNext prepared shared first_base continued_base target
            (entry state.remaining_segments)
            (entry state.next_boundary)
            start
            m')
        → m' ≡ m
        → (rest : List (ℕ × ℕ))
        → ((others : List (ℕ × ℕ))
            → IsPartition best.end others
            → length others ≡ best.after
            → IsLatest rest others)
        → (others : List (ℕ × ℕ)) → IsPartition start others
        → length others ≡ m
        → IsLatest ((start, best.end) ∷ rest) others
    later start m m' best same rest latest [] q l = tt
    later start m m' best same rest latest ((a, b) ∷ others) (e, s, q) l =
        let s' = subst (λ k. Segment prepared shared first_base continued_base target k b) e s in
        let (count, f, few) = reached b others q in
        let (least, tie) = best.least b count s' f in
        let close : b ≤ best.end = tie (omega (arith, best.count_eq)) in
        elim (Bool-cases (b == best.end)) [
          | inl y ↦
              let at_end = (==_iff b best.end).0 y in
              inr (
                at_end,
                latest others (subst (λ k. IsPartition k others) at_end q)
                    (omega (arith, best.count_eq)),
              )
          | inr n ↦ inl (ground arith)
        ]

    pub collect_ranges-IsPartition :
        (fuel start m : ℕ)
        → start ≤ length prepared.digests
        → length prepared.digests ≤ start + fuel
        → entry state.remaining_segments start ≡ some m
        → (ranges : List (ℕ × ℕ)) × (collect_ranges fuel state.next_boundary
              (length prepared.digests)
              target
              start
            ≡ ok ranges)
          × IsPartition start ranges
          × (length ranges ≡ m)
          × ((others : List (ℕ × ℕ))
              → IsPartition start others
              → length others ≡ m
              → IsLatest ranges others)
    unfolding collect_ranges
    collect_ranges-IsPartition zero start m low enough e =
        let last : start ≡ length prepared.digests = omega arith in
        ([], refl, last, ended start m last e, λ others q l. tt)
    collect_ranges-IsPartition (suc fuel) start m low enough e =
        elim (Bool-cases (ltb start (length prepared.digests))) [
          | inr n ↦
              let last : start ≡ length prepared.digests = ground arith in
              ([], rw (n, collect_ranges) refl, last, ended start m last e, λ others q l. tt)
          | inl y ↦
              let more = ltb→lt start (length prepared.digests) y in
              elim (routed.solved start (omega arith) more) [
                | inl (none_here, dead) ↦ cc
                | inr (m', e', best) ↦
                    let same : m' ≡ m = some_inj (sym e' ∙ e) in
                    let (rest, f, q, count, latest) =
                      collect_ranges-IsPartition fuel best.end best.after best.segment.inside
                        (omega (arith, best.segment.forward)) best.after_eq in
                    let passed = boundary start best.end best.segment.forward best.segment.inside in
                    (
                      (start, best.end) ∷ rest,
                      collect_next fuel start best.end rest y best.next_eq passed f,
                      (refl, best.segment, q),
                      omega (arith, best.count_eq),
                      later start m m' best same rest latest,
                    )
              ]
        ]

module _ (prepared : PreparedEpisodeEvents) (request : SealEpisodeRequest)
    (first_base continued_base target : ℕ) where
  abbrev IsRequested : ℕ → List (ℕ × ℕ) → Type 0
  IsRequested = IsPartition prepared (shared_substantive request) first_base continued_base target

  -- The outcome, with what the vectors say of it.
  pub plan_episode_ranges-cases :
      IsPrepared prepared
      → ((ranges : List (ℕ × ℕ)) × (plan_episode_ranges prepared request first_base continued_base
              target
            ≡ ok ranges)
          × IsPartition prepared
              (shared_substantive request)
              first_base
              continued_base
              target
              0
              ranges
          × ((others : List (ℕ × ℕ))
              → IsPartition prepared
                  (shared_substantive request)
                  first_base
                  continued_base
                  target
                  0
                  others
              → (length ranges ≤ length others)
                × (length others ≡ length ranges → IsLatest ranges others)))
        ⊎ ((plan_episode_ranges prepared request first_base continued_base target
              ≡ err (episode_requires_split (saturating_add target 1) target))
            × ((others : List (ℕ × ℕ))
                → IsPartition prepared
                    (shared_substantive request)
                    first_base
                    continued_base
                    target
                    0
                    others
                → ⊥))
  unfolding plan_episode_ranges
  plan_episode_ranges-cases p =
      let shared = shared_substantive request in
      let (state, e, routed) =
        route_all-Routed prepared shared first_base continued_base target p
          (length prepared.digests) _ (omega arith)
          (route_start-Routed prepared shared first_base continued_base target p) in
      elim (Option-cases (entry state.remaining_segments 0)) [
        | inl none_here ↦ inr (
          rw (e, none_here) refl,
          λ others q.
              let (m, f, few) =
                reached prepared shared first_base continued_base target state routed 0 others q in
              cc,
        )
        | inr (m, some_here) ↦
            let (ranges, f, q, count, latest) =
              collect_ranges-IsPartition prepared shared first_base continued_base target state
                routed (length prepared.digests) 0 m (omega arith) (omega arith) some_here in
            inl (
              ranges,
              rw (e, some_here) f,
              q,
              λ others r.
                  let (m', g, few) =
                    reached prepared shared first_base continued_base target state routed 0 others
                      r in
                  let same = some_inj (sym some_here ∙ g) in
                  (omega arith, λ l. latest others r (l ∙ count)),
            )
      ]

  -- Where `plan_episode_ranges` gives ranges, of events that were prepared, they partition the events into
  -- segments; no partition into segments has fewer ranges; and beside any partition of as many ranges, at
  -- the first end in which the two differ, the one that the plan gives is later.
  pub plan_episode_ranges-IsPartition :
      (ranges : List (ℕ × ℕ))
      → IsPrepared prepared
      → plan_episode_ranges prepared request first_base continued_base target ≡ ok ranges
      → IsPartition prepared (shared_substantive request) first_base continued_base target 0 ranges
        × ((others : List (ℕ × ℕ))
            → IsPartition prepared
                (shared_substantive request)
                first_base
                continued_base
                target
                0
                others
            → (length ranges ≤ length others)
              × (length others ≡ length ranges → IsLatest ranges others))
  plan_episode_ranges-IsPartition ranges p h = elim (plan_episode_ranges-cases p) [
    | inl (found, e, best, least) ↦
        subst
          (λ r.
            IsPartition prepared (shared_substantive request) first_base continued_base target 0 r
            × ((others : List (ℕ × ℕ))
                → IsPartition prepared (shared_substantive request) first_base continued_base target
                    0 others
                → (length r ≤ length others) × (length others ≡ length r → IsLatest r others)))
          (ok_inj (sym e ∙ h)) (best, least)
    | inr (e, dead) ↦ absurd (err-ne-ok (sym e ∙ h))
  ]

  -- If prepared events have any partition into segments, then `plan_episode_ranges` gives ranges.
  pub plan_episode_ranges_complete :
      (others : List (ℕ × ℕ))
      → IsPrepared prepared
      → IsPartition prepared (shared_substantive request) first_base continued_base target 0 others
      → (ranges : List (ℕ × ℕ)) × (plan_episode_ranges prepared request first_base continued_base
            target
          ≡ ok ranges)
  plan_episode_ranges_complete others p q = elim (plan_episode_ranges-cases p) [
    | inl (found, e, best, least) ↦ (found, e)
    | inr (e, dead) ↦ absurd (dead others q)
  ]

  -- The only error of `plan_episode_ranges`, on prepared events, is that an episode requires a split, with
  -- the target and one more than it; and then no partition into segments exists.
  pub plan_episode_ranges-err :
      (error : MemoryError)
      → IsPrepared prepared
      → plan_episode_ranges prepared request first_base continued_base target ≡ err error
      → (error ≡ episode_requires_split (saturating_add target 1) target)
        × ((others : List (ℕ × ℕ))
            → IsPartition prepared
                (shared_substantive request)
                first_base
                continued_base
                target
                0
                others
            → ⊥)
  plan_episode_ranges-err error p h = elim (plan_episode_ranges-cases p) [
    | inl (found, e, best, least) ↦ absurd (err-ne-ok (sym h ∙ e))
    | inr (e, dead) ↦ (err_inj (sym h ∙ e), dead)
  ]
