-- ===== src/Seal/Routes/Store.antt =====
-- crates/naome-memory-core/src/seal.rs: `RouteChoices` as what it stands for, a choice or none at each
-- boundary.
use naome_memory.Base.{
  ℕ, zero, suc, ◌+◌, ◌*◌, ◌/◌, ◌-◌, ◌^◌, ◌≤◌, ◌<◌, ◌≢◌, ◌≡◌, ◌∙◌, refl, ap, inl, inr, List, Option,
  none, some, arith, length, ◌==◌, if◌then◌else◌, Bool-cases, set, ==_iff, u64_max, saturating_add,
  saturating_mul, min,
}
use naome_memory.Seal.Routes.{
  RouteChoice, RouteChoices, best_route_choice, node_at, climb, best_in, insert, nones, new_routes,
  next_power_of_two, power_from,
}
use naome_memory.Seal.Routes.Tree.{
  Holds, IsTree, HoldsBut, length-set, get_or-set_same, get_or-set_other, climb-IsTree, climb-leaf,
  length-climb,
}
use naome_memory.Seal.Routes.Scan.{scan, best_from-over}

-- The best of the choices at so many boundaries from `start` on, one by one.
unfoldable pub best_of : (ℕ → Option RouteChoice) → ℕ → ℕ → Option RouteChoice
best_of choice start zero = none
best_of choice start (suc count) =
    best_route_choice (choice start) (best_of choice (suc start) count)

-- The boundaries that the routes have room for hold these choices.
pub record Stores (routes : RouteChoices) (choice : ℕ → Option RouteChoice) : Type 0 where
  pub size : length routes.nodes ≡ routes.leaf_count * 2
  pub fits : routes.leaf_count * 2 ≤ u64_max
  pub room : 1 ≤ routes.leaf_count
  pub tree : IsTree routes.leaf_count routes.nodes
  pub leaves :
      (i : ℕ) → i < routes.leaf_count → node_at routes.nodes (routes.leaf_count + i) ≡ choice i

abbrev pub put : (ℕ → Option RouteChoice) → ℕ → ℕ → ℕ → Option RouteChoice
put choice index remaining i =
    if i == index then some (record { remaining_segments = remaining; end = index }) else choice i

power_from-ge : (fuel power n : ℕ) → 1 ≤ power → n ≤ power + fuel → n ≤ power_from fuel power n
unfolding power_from
power_from-ge zero power n one h = omega arith
power_from-ge (suc fuel) power n one h = ground (arith, power_from-ge fuel (power * 2) n)

power_from-lt : (fuel power n : ℕ) → power < n * 2 → power_from fuel power n < n * 2
unfolding power_from
power_from-lt zero power n h = h
power_from-lt (suc fuel) power n h = ground (arith, power_from-lt fuel (power * 2) n)

-- `next_power_of_two` is at least its argument and less than twice of it.
pub next_power_of_two-ge : (n : ℕ) → n ≤ next_power_of_two n
unfolding next_power_of_two
next_power_of_two-ge n = power_from-ge n 1 n (omega arith) (omega arith)

pub next_power_of_two-lt : (n : ℕ) → 1 ≤ n → next_power_of_two n < n * 2
unfolding next_power_of_two
next_power_of_two-lt n h = power_from-lt n 1 n (omega arith)

length-nones : (n : ℕ) → length (nones {A = RouteChoice} n) ≡ n
unfolding nones
length-nones zero = refl
length-nones (suc n) = ap suc (length-nones n)

node-nones : (n i : ℕ) → node_at (nones n) i ≡ none
unfolding nones
node-nones zero i = refl
node-nones (suc n) zero = refl
node-nones (suc n) (suc i) = node-nones n i

empty-Holds : (n i : ℕ) → Holds (nones n) i
unfolding best_route_choice
empty-Holds n i =
    let own = node-nones n i in
    let left = node-nones n (i * 2) in
    let right = node-nones n (i * 2 + 1) in rw (own, left, right) refl

pub new_routes-Stores : (n : ℕ) → 1 ≤ n → n ≤ 2 ^ 62 → Stores (new_routes n) (λ i. none)
unfolding new_routes
new_routes-Stores n one few =
    let low = next_power_of_two-ge n in
    let high = next_power_of_two-lt n one in
    let small : min (next_power_of_two n * 2) u64_max ≡ next_power_of_two n * 2 = omega arith in
    record {
      size = length-nones _ ∙ small;
      fits = omega arith;
      room = omega arith;
      tree = λ i l h. empty-Holds (saturating_mul (next_power_of_two n) 2) i;
      leaves = λ i h. node-nones (saturating_mul (next_power_of_two n) 2) (next_power_of_two n + i);
    }

-- A leaf that is written leaves but its parent to be set.
set-HoldsBut :
    (leaf : ℕ) (nodes : List (Option RouteChoice)) (node : ℕ) (v : Option RouteChoice)
    → length nodes ≡ leaf * 2
    → leaf ≤ node
    → node < leaf * 2
    → IsTree leaf nodes
    → HoldsBut leaf (node / 2) (set nodes node v)
set-HoldsBut leaf nodes node v size low high tree i one few ne =
    let own = get_or-set_other nodes node i v none (omega arith) (λ e. omega arith) in
    let left = get_or-set_other nodes node (i * 2) v none (omega arith) (λ e. omega arith) in
    let right = get_or-set_other nodes node (i * 2 + 1) v none (omega arith) (λ e. omega arith) in
    let holds = tree i one few in cc

put-other :
    (choice : ℕ → Option RouteChoice) (index remaining i : ℕ)
    → index ≢ i
    → put choice index remaining i ≡ choice i
put-other choice index remaining i h = ground arith

module _ (routes : RouteChoices) (choice : ℕ → Option RouteChoice) (s : Stores routes choice) where
  -- The write of `insert`, its node named.
  abbrev write : ℕ → ℕ → ℕ → List (Option RouteChoice)
  write node index remaining =
      set routes.nodes node (some (record { remaining_segments = remaining; end = index }))

  write-leaf :
      (node index remaining i : ℕ)
      → node ≡ routes.leaf_count + index
      → index < routes.leaf_count
      → i < routes.leaf_count
      → node_at (write node index remaining) (routes.leaf_count + i) ≡ put choice index remaining i
  write-leaf node index remaining i e h few = elim (Bool-cases (i == index)) [
    | inl y ↦
        let same = (==_iff i index).0 y in
        rw y (
          get_or-set_same routes.nodes node (routes.leaf_count + i) _ none (omega (arith, s.size))
            (omega arith))
    | inr n ↦ rw n (
        get_or-set_other routes.nodes node (routes.leaf_count + i) _ none (omega (arith, s.size))
          (λ q. ground arith)
        ∙ s.leaves i few)
  ]

  write-Stores :
      (node index remaining : ℕ)
      → node ≡ routes.leaf_count + index
      → index < routes.leaf_count
      → Stores
          (record routes { nodes = climb node (write node index remaining) node })
          (put choice index remaining)
  write-Stores node index remaining e h =
      let size =
        length-set routes.nodes node (some (record { remaining_segments = remaining; end = index }))
        ∙ s.size in
      record {
        size = length-climb routes.leaf_count node _ node ∙ size;
        fits = s.fits;
        room = s.room;
        tree = climb-IsTree routes.leaf_count node _ node size (omega arith) (omega arith) (
            set-HoldsBut routes.leaf_count routes.nodes node _ s.size (omega arith) (omega arith)
              s.tree);
        leaves = λ i few.
            climb-leaf routes.leaf_count node _ node (routes.leaf_count + i) size (omega arith)
              (omega arith)
            ∙ write-leaf node index remaining i e h few;
      }

  -- What `insert` writes is what is stored, and nothing else changes.
  pub insert-Stores :
      (index remaining : ℕ)
      → index < routes.leaf_count
      → Stores (insert routes index remaining) (put choice index remaining)
  unfolding insert
  insert-Stores index remaining h =
      write-Stores (saturating_add routes.leaf_count index) index remaining (omega (arith, s.fits))
        h

pub leaf_count-new : (n : ℕ) → n ≤ (new_routes n).leaf_count
unfolding new_routes
leaf_count-new n = next_power_of_two-ge n

pub leaf_count-insert :
    (routes : RouteChoices) (index remaining : ℕ)
    → (insert routes index remaining).leaf_count ≡ routes.leaf_count
unfolding insert
leaf_count-insert routes index remaining = refl

best_of-scan :
    (nodes : List (Option RouteChoice)) (choice : ℕ → Option RouteChoice) (leaf : ℕ)
    → ((i : ℕ) → i < leaf → node_at nodes (leaf + i) ≡ choice i)
    → (count start node : ℕ) → node ≡ leaf + start
    → start + count ≤ leaf
    → scan nodes node count ≡ best_of choice start count
unfolding scan best_of
best_of-scan nodes choice leaf leaves zero start node e h = refl
best_of-scan nodes choice leaf leaves (suc count) start node e h =
    let rest =
      best_of-scan nodes choice leaf leaves count (suc start) (suc node) (omega arith)
        (omega arith) in
    let own = leaves start (omega arith) in let here = ap (node_at nodes) e in cc

-- `best_in` gives the best of the choices at the boundaries from `start` to before `end`.
pub best_in-best_of :
    (routes : RouteChoices) (choice : ℕ → Option RouteChoice) (start end : ℕ)
    → Stores routes choice
    → start ≤ end
    → end ≤ routes.leaf_count
    → best_in routes start end ≡ best_of choice start (end - start)
unfolding best_in
best_in-best_of routes choice start end s low high =
    let first : saturating_add start routes.leaf_count ≡ routes.leaf_count + start =
      omega (arith, s.fits) in
    let last : saturating_add end routes.leaf_count ≡ routes.leaf_count + end =
      omega (arith, s.fits) in
    let count : saturating_add end routes.leaf_count - saturating_add start routes.leaf_count
        ≡ end - start =
      omega (arith, s.fits) in
    best_from-over routes.nodes routes.leaf_count s.tree
      (suc (saturating_add end routes.leaf_count)) (saturating_add start routes.leaf_count)
      (saturating_add end routes.leaf_count) none (omega (arith, s.room)) (omega arith)
      (omega arith)
    ∙ best_of-scan routes.nodes choice routes.leaf_count s.leaves _ start _ first (omega arith)
    ∙ ap (best_of choice start) count
