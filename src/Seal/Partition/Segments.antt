-- ===== src/Seal/Partition/Segments.antt =====
-- crates/naome-memory-core/src/seal.rs: the segments that `plan_episode_ranges` may use, and the bounds that
-- it computes for them.
use naome_memory.Base.{
  ℕ, zero, suc, ◌+◌, ◌-◌, ◌^◌, ◌≤◌, ◌<◌, ◌≡◌, ◌↔◌, ◌⊎◌, inl, inr, Bool, true, false, not, ◌&&◌,
  List, [], ◌∷◌, Option, none, some, ltb, leb, ◌==◌, if◌then◌else◌, get_or, length, All, arith,
  Bool-cases, u64_max, saturating_add, leb→le, ltb→lt, &&_true,
}
use naome_memory.Seal.Prepared.{PreparedEpisodeEvents}
use naome_memory.Seal.Partition.{
  partition_point, base_bytes, maximum_end, minimum_end, segment_ends,
}

-- A list in order.
abbrev pub IsRising : List ℕ → Type 0
IsRising [] = Unit
IsRising (x ∷ xs) = All (λ y. x ≤ y) xs × IsRising xs

pub All-get_or :
    (P : ℕ → Type 0) (xs : List ℕ) (i d : ℕ) → All P xs → i < length xs → P (get_or xs i d)
All-get_or P [] i d h few = absurd (omega arith)
All-get_or P (x ∷ xs) zero d h few = h.0
All-get_or P (x ∷ xs) (suc i) d h few = All-get_or P xs i d h.1 (omega arith)

pub get_or-le :
    (xs : List ℕ) (i j : ℕ) → IsRising xs → i ≤ j → j < length xs → get_or xs i 0 ≤ get_or xs j 0
get_or-le [] i j h le few = absurd (omega arith)
get_or-le (x ∷ xs) zero zero h le few = omega arith
get_or-le (x ∷ xs) zero (suc j) h le few = All-get_or (λ y. x ≤ y) xs j 0 h.0 (omega arith)
get_or-le (x ∷ xs) (suc i) zero h le few = absurd (omega arith)
get_or-le (x ∷ xs) (suc i) (suc j) h le few = get_or-le xs i j h.1 (omega arith) (omega arith)

-- The elements before the partition point are those up to the bound.
pub partition_point_iff :
    (bound : ℕ) (xs : List ℕ) (i : ℕ)
    → IsRising xs
    → i < length xs
    → (i < partition_point bound xs) ↔ (get_or xs i 0 ≤ bound)
unfolding partition_point
partition_point_iff bound [] i h few = absurd (omega arith)
partition_point_iff bound (x ∷ xs) zero h few = ground arith
partition_point_iff bound (x ∷ xs) (suc i) h few =
    let least = All-get_or (λ y. x ≤ y) xs i 0 h.0 (omega arith) in
    ground (arith, partition_point_iff bound xs i h.1)

-- What `PreparedEpisodeEvents::new` gives, of events that fit in memory.
pub record IsPrepared (prepared : PreparedEpisodeEvents) : Type 0 where
  pub bytes_length : length prepared.cumulative_body_bytes ≡ suc (length prepared.digests)
  pub substantive_length : length prepared.cumulative_substantive ≡ suc (length prepared.digests)
  pub bytes_rising : IsRising prepared.cumulative_body_bytes
  pub substantive_rising : IsRising prepared.cumulative_substantive
  pub bytes_small : All (λ y. y ≤ u64_max) prepared.cumulative_body_bytes
  pub count_small : suc (length prepared.digests) ≤ 2 ^ 62

module _ (prepared : PreparedEpisodeEvents) (shared : Bool)
    (first_base continued_base target : ℕ) where
  abbrev pub bytes_at : ℕ → ℕ
  bytes_at i = get_or prepared.cumulative_body_bytes i 0

  abbrev pub substantive_at : ℕ → ℕ
  substantive_at i = get_or prepared.cumulative_substantive i 0

  -- The events from `start` to before `end` can be an episode: there is one, they fit the target beside the
  -- base of the body, and something substantive is among them or shared by all the episodes.
  pub record Segment (start end : ℕ) : Type 0 where
    pub forward : start < end
    pub inside : end ≤ length prepared.digests
    pub fits :
        (if start == 0 then first_base else continued_base) + (bytes_at end - bytes_at start)
        ≤ target
    pub substance : (shared ≡ true) ⊎ (substantive_at start < substantive_at end)

  module _ (p : IsPrepared prepared) where
    maximum_end_iff :
        (start end capacity : ℕ)
        → start < end
        → end ≤ length prepared.digests
        → (end ≤ maximum_end prepared shared first_base continued_base target start capacity)
          ↔ (bytes_at end - bytes_at start ≤ capacity)
    unfolding maximum_end
    maximum_end_iff start end capacity forward inside =
        let limit = saturating_add (bytes_at start) capacity in
        let before =
          partition_point_iff limit prepared.cumulative_body_bytes end p.bytes_rising
            (omega (arith, p.bytes_length)) in
        let order =
          get_or-le prepared.cumulative_body_bytes start end p.bytes_rising (omega arith)
            (omega (arith, p.bytes_length)) in
        let small =
          All-get_or (λ y. y ≤ u64_max) prepared.cumulative_body_bytes end 0 p.bytes_small
            (omega (arith, p.bytes_length)) in
        (λ h. omega (arith, before.0), λ h. omega (arith, before.1))

    minimum_end_iff :
        (start end : ℕ)
        → start < end
        → end ≤ length prepared.digests
        → (minimum_end prepared shared first_base continued_base target start ≤ end)
          ↔ ((shared ≡ true) ⊎ (substantive_at start < substantive_at end))
    unfolding minimum_end
    minimum_end_iff start end forward inside =
        let before =
          partition_point_iff (substantive_at start) prepared.cumulative_substantive end
            p.substantive_rising (omega (arith, p.substantive_length)) in
        ground (arith, p.count_small, before)

    minimum_end-gt :
        (start : ℕ)
        → start < length prepared.digests
        → start < minimum_end prepared shared first_base continued_base target start
    unfolding minimum_end
    minimum_end-gt start inside =
        let before =
          partition_point_iff (substantive_at start) prepared.cumulative_substantive start
            p.substantive_rising (omega (arith, p.substantive_length)) in
        ground (arith, p.count_small, before)

    maximum_end-le :
        (start capacity : ℕ)
        → maximum_end prepared shared first_base continued_base target start capacity
          ≤ length prepared.digests
    unfolding maximum_end
    maximum_end-le start capacity = omega arith

    -- Where the base of a body fits, the segments are those between the bounds.
    Segment-iff :
        (start end : ℕ)
        → base_bytes prepared shared first_base continued_base target start ≤ target
        → start < length prepared.digests
        → Segment start end ↔ (
            (minimum_end prepared shared first_base continued_base target start ≤ end)
            × (end
                ≤ maximum_end prepared shared first_base continued_base target start
                    (target - base_bytes prepared shared first_base continued_base target start)))
    Segment-iff start end room inside =
        let capacity = target - base_bytes prepared shared first_base continued_base target start in
        (
          λ s. (
            (minimum_end_iff start end s.forward s.inside).1 s.substance,
            (maximum_end_iff start end capacity s.forward s.inside).1 (omega (arith, s.fits)),
          ),
          λ (low, high).
              let above = minimum_end-gt start inside in
              let forward : start < end = omega arith in
              let few : end ≤ length prepared.digests =
                omega (arith, maximum_end-le start capacity) in
              let room' = (maximum_end_iff start end capacity forward few).0 high in
              record {
                forward = forward;
                inside = few;
                fits = omega arith;
                substance = (minimum_end_iff start end forward few).0 low;
              },
        )

  -- The ends of the segments from a start, as a range or as none.
  abbrev pub Ends : ℕ → Option (ℕ × ℕ) → Type 0
  Ends start none = (end : ℕ) → Segment start end → ⊥
  Ends start (some (low, high)) =
      (start < low)
      × (low ≤ high)
      × (high ≤ length prepared.digests)
      × ((end : ℕ) → Segment start end ↔ ((low ≤ end) × (end ≤ high)))

  over_target : (base bytes limit : ℕ) → leb base limit ≡ false → base + bytes ≤ limit → ⊥
  over_target base bytes limit n h = ground arith

  -- `segment_ends` by its tests.
  module _ (start : ℕ) where
    abbrev base_here : ℕ
    base_here = base_bytes prepared shared first_base continued_base target start

    abbrev low_here : ℕ
    low_here = minimum_end prepared shared first_base continued_base target start

    abbrev high_here : ℕ
    high_here =
        maximum_end prepared shared first_base continued_base target start (target - base_here)

    ends_over :
        leb base_here target ≡ false
        → segment_ends prepared shared first_base continued_base target start ≡ none
    unfolding segment_ends
    ends_over h = ground arith

    ends_behind :
        leb base_here target ≡ true
        → leb high_here start ≡ true
        → segment_ends prepared shared first_base continued_base target start ≡ none
    unfolding segment_ends
    ends_behind h k = ground arith

    ends_bare :
        leb base_here target ≡ true
        → leb high_here start ≡ false
        → (not shared && ltb high_here low_here) ≡ true
        → segment_ends prepared shared first_base continued_base target start ≡ none
    unfolding segment_ends
    ends_bare h k l = ground arith

    ends_between :
        leb base_here target ≡ true
        → leb high_here start ≡ false
        → (not shared && ltb high_here low_here) ≡ false
        → segment_ends prepared shared first_base continued_base target start
          ≡ some (low_here, high_here)
    unfolding segment_ends
    ends_between h k l = ground arith

    low-le-high :
        leb high_here start ≡ false
        → (not shared && ltb high_here low_here) ≡ false
        → start < length prepared.digests
        → suc (length prepared.digests) ≤ 2 ^ 62
        → low_here ≤ high_here
    unfolding minimum_end
    low-le-high k l inside small = ground arith

  pub segment_ends-Ends :
      IsPrepared prepared
      → (start : ℕ) → start < length prepared.digests
      → Ends start (segment_ends prepared shared first_base continued_base target start)
  unfolding segment_ends
  segment_ends-Ends p start inside =
      let base = base_here start in
      let low = low_here start in
      let high = high_here start in
      let above = minimum_end-gt p start inside in
      let few = maximum_end-le p start (target - base) in
      let iff = λ (end : ℕ) (room : base ≤ target). Segment-iff p start end room inside in
      elim (Bool-cases (leb base target)) [
        | inr n ↦ rw (ends_over start n) (λ end s. over_target base _ target n s.fits)
        | inl y ↦
            let room = leb→le base target y in
            elim (Bool-cases (leb high start)) [
              | inl e ↦
                  let bound = leb→le high start e in
                  rw (ends_behind start y e)
                    (λ end s. let (a, b) = (iff end room).0 s in omega arith)
              | inr e ↦ elim (Bool-cases (not shared && ltb high low)) [
                | inl f ↦
                    let bound = ltb→lt high low (&&_true (not shared) _ f).1 in
                    rw (ends_bare start y e f)
                      (λ end s. let (a, b) = (iff end room).0 s in omega arith)
                | inr f ↦
                    rw (ends_between start y e f)
                      (above, low-le-high start e f inside p.count_small, few, λ end. iff end room)
              ]
            ]
      ]
