-- ===== src/Seal/Partition.antt =====
-- crates/naome-memory-core/src/seal.rs: `plan_episode_ranges`, which cuts the events of an episode into
-- segments that fit the target.
--
-- A vector is read inside of its bounds only; the model reads 0 or `none` outside of them. The loop that
-- collects the ranges moves on by a boundary at least, and takes the number of events as its fuel.
pub mod Segments
pub mod Solved
pub mod Write
pub mod Start
pub mod Step
pub mod Optimal
use naome_memory.Base.{
  ℕ, zero, suc, ◌+◌, ◌-◌, Bool, true, false, not, ◌&&◌, ◌||◌, List, [], ◌∷◌, Option, none, some,
  min, ltb, leb, ◌==◌, if◌then◌else◌, get_or, set, length, is_some, is_nil, checked_add,
  checked_sub, saturating_add,
}
use naome_memory.Error.{
  Result, ok, err, ok_or, ◌>>=◌, ◌>>◌, reject_if, canonical_encoding, episode_requires_split,
}
use naome_memory.Seal.Types.{SealEpisodeRequest}
use naome_memory.Seal.Prepared.{PreparedEpisodeEvents}
use naome_memory.Seal.Routes.{RouteChoices, RouteChoice, new_routes, insert, best_in, nones}

-- `partition_point(|x| *x <= bound)` of a vector in order.
unfoldable pub partition_point : ℕ → List ℕ → ℕ
partition_point bound [] = 0
partition_point bound (x ∷ xs) =
    let rest = partition_point bound xs in if leb x bound then suc rest else 0

-- What the loop over the starts changes.
pub record RouteState : Type 0 where
  pub routes : RouteChoices
  pub remaining_segments : List (Option ℕ)
  pub next_boundary : List (Option ℕ)

abbrev pub shared_substantive : SealEpisodeRequest → Bool
shared_substantive request = is_some request.outcome || not (is_nil request.feedback)

module _ (prepared : PreparedEpisodeEvents) (shared : Bool)
    (first_base continued_base target : ℕ) where
  abbrev pub event_count : ℕ
  event_count = length prepared.digests

  abbrev pub base_bytes : ℕ → ℕ
  base_bytes start = if start == 0 then first_base else continued_base

  -- `maximum_end`, for what is left of the target after the base of a segment.
  unfoldable pub maximum_end : ℕ → ℕ → ℕ
  maximum_end start capacity =
      let limit = saturating_add (get_or prepared.cumulative_body_bytes start 0) capacity in
      min (partition_point limit prepared.cumulative_body_bytes - 1) event_count

  -- `minimum_end`
  unfoldable pub minimum_end : ℕ → ℕ
  minimum_end start =
      if shared
      then saturating_add start 1
      else partition_point (get_or prepared.cumulative_substantive start 0)
          prepared.cumulative_substantive

  -- The first and the last boundary at which a segment from `start` can end, unless the loop goes on to the
  -- next start.
  unfoldable pub segment_ends : ℕ → Option (ℕ × ℕ)
  segment_ends start = elim (checked_sub target (base_bytes start)) [
    | none ↦ none
    | some capacity ↦
        let last = maximum_end start capacity in
        if leb last start
        then none
        else if not shared && ltb last (minimum_end start)
        then none
        else some (minimum_end start, last)
  ]

  -- The body of the loop over the starts.
  unfoldable pub route_one : ℕ → RouteState → Result RouteState
  route_one start state = elim (segment_ends start) [
    | none ↦ ok state
    | some (low, high) ↦ elim (best_in state.routes low (saturating_add high 1)) [
      | none ↦ ok state
      | some successor ↦ do
        segment_count ←
            ok_or (checked_add successor.remaining_segments 1)
              (canonical_encoding "episode chain length overflowed usize")
        ok (record {
          routes = insert state.routes start segment_count;
          remaining_segments = set state.remaining_segments start (some segment_count);
          next_boundary = set state.next_boundary start (some successor.end);
        })
    ]
  ]

  -- The starts below `count`, the last one first.
  unfoldable pub route_all : ℕ → RouteState → Result RouteState
  route_all zero state = ok state
  route_all (suc count) state = do next ← route_one count state; route_all count next

-- What the loop starts with.
unfoldable pub route_start : ℕ → RouteState
route_start count = record {
  routes = insert (new_routes (saturating_add count 1)) count 0;
  remaining_segments = set (nones (saturating_add count 1)) count (some 0);
  next_boundary = nones (saturating_add count 1);
}

unfoldable pub validate_partition_boundary : ℕ → ℕ → ℕ → Result (Unit {0})
validate_partition_boundary start end event_count =
    reject_if (leb end start || ltb event_count end)
      (canonical_encoding "episode partition route was invalid")

-- The loop over the ranges.
unfoldable pub collect_ranges : ℕ → List (Option ℕ) → ℕ → ℕ → ℕ → Result (List (ℕ × ℕ))
collect_ranges zero next_boundary count target start = ok []
collect_ranges (suc fuel) next_boundary count target start = elim (ltb start count) [
  | false ↦ ok []
  | true ↦ do
    end ←
        ok_or (get_or next_boundary start none)
          (episode_requires_split (saturating_add target 1) target)
    validate_partition_boundary start end count
    rest ← collect_ranges fuel next_boundary count target end
    ok ((start, end) ∷ rest)
]

unfoldable pub plan_episode_ranges :
    PreparedEpisodeEvents → SealEpisodeRequest → ℕ → ℕ → ℕ → Result (List (ℕ × ℕ))
plan_episode_ranges prepared request first_base continued_base target = do
  let count = length prepared.digests
  let shared = shared_substantive request
  state ← route_all prepared shared first_base continued_base target count (route_start count)
  reject_if (not (is_some (get_or state.remaining_segments 0 none)))
      (episode_requires_split (saturating_add target 1) target)
  collect_ranges count state.next_boundary count target 0
