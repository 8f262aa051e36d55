-- ===== src/Seal/Routes.antt =====
-- crates/naome-memory-core/src/seal.rs: `RouteChoices`, a segment tree over the boundaries of a chain. Node
-- 1 is the root, the children of node i are 2 i and 2 i + 1, and the leaf of boundary i is
-- `leaf_count + i`.
--
-- Each loop halves a node's number, and takes that number as its fuel. A node that the code reads or
-- writes lies in the vector; the model reads `none` and writes nothing outside of it.
pub mod Choice
pub mod Tree
pub mod Scan
pub mod Store
pub mod Best
pub mod Inserted
use naome_memory.Base.{
  ℕ, zero, suc, ◌+◌, ◌*◌, ◌/◌, ◌%◌, ◌-◌, Bool, true, false, ◌&&◌, ◌||◌, List, [], ◌∷◌, Option, none,
  some, ltb, leb, ◌==◌, if◌then◌else◌, get_or, set, length, saturating_add, saturating_mul,
}

pub record RouteChoice : Type 0 where
  pub remaining_segments : ℕ
  pub end : ℕ

pub record RouteChoices : Type 0 where
  pub leaf_count : ℕ
  pub nodes : List (Option RouteChoice)

unfoldable pub better_than : RouteChoice → RouteChoice → Bool
better_than choice other =
    ltb choice.remaining_segments other.remaining_segments
    || (choice.remaining_segments == other.remaining_segments && ltb other.end choice.end)

unfoldable pub best_route_choice : Option RouteChoice → Option RouteChoice → Option RouteChoice
unfolding better_than
best_route_choice none right = right
best_route_choice (some left) none = some left
best_route_choice (some left) (some right) =
    if better_than left right then some left else some right

-- `usize::next_power_of_two`: the first of the powers from `power` on that is at least `n`.
unfoldable pub power_from : ℕ → ℕ → ℕ → ℕ
power_from zero power n = power
power_from (suc fuel) power n =
    let rest = power_from fuel (power * 2) n in if leb n power then power else rest

unfoldable pub next_power_of_two : ℕ → ℕ
unfolding power_from
next_power_of_two n = power_from n 1 n

-- `vec![None; n]`
unfoldable pub nones {ℓ} : {A : Type ℓ} → ℕ → List (Option A)
nones zero = []
nones (suc n) = none ∷ nones n

-- `RouteChoices::new`
unfoldable pub new_routes : ℕ → RouteChoices
unfolding next_power_of_two nones
new_routes value_count = record {
  leaf_count = next_power_of_two value_count;
  nodes = nones (saturating_mul (next_power_of_two value_count) 2);
}

abbrev pub node_at : List (Option RouteChoice) → ℕ → Option RouteChoice
node_at nodes i = get_or nodes i none

-- The loop of `insert`: each ancestor of a node is set to the better of its children.
unfoldable pub climb : ℕ → List (Option RouteChoice) → ℕ → List (Option RouteChoice)
unfolding best_route_choice
climb zero nodes node = nodes
climb (suc fuel) nodes node =
    let rest =
      climb fuel
        (set nodes (node / 2)
          (best_route_choice (node_at nodes (node / 2 * 2)) (node_at nodes (node / 2 * 2 + 1))))
        (node / 2) in
    if ltb 1 node then rest else nodes

unfoldable pub insert : RouteChoices → ℕ → ℕ → RouteChoices
unfolding climb
insert routes index remaining_segments =
    let node = saturating_add routes.leaf_count index in
    record routes {
      nodes =
          climb node
            (set routes.nodes node
              (some (record { remaining_segments = remaining_segments; end = index })))
            node;
    }

-- The loop of `best_in` over the nodes from `start` to before `end`.
unfoldable pub best_from :
    ℕ → List (Option RouteChoice) → ℕ → ℕ → Option RouteChoice → Option RouteChoice
unfolding best_route_choice
best_from zero nodes start end best = best
best_from (suc fuel) nodes start end best =
    let left = start % 2 == 1 in
    let right = end % 2 == 1 in
    let taken = if left then best_route_choice best (node_at nodes start) else best in
    let next =
      best_from fuel nodes ((if left then start + 1 else start) / 2)
        ((if right then end - 1 else end) / 2)
        (if right then best_route_choice taken (node_at nodes (end - 1)) else taken) in
    if ltb start end then next else best

unfoldable pub best_in : RouteChoices → ℕ → ℕ → Option RouteChoice
unfolding best_from
best_in routes start end =
    let last = saturating_add end routes.leaf_count in
    best_from (suc last) routes.nodes (saturating_add start routes.leaf_count) last none
