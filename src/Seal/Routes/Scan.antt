-- ===== src/Seal/Routes/Scan.antt =====
-- crates/naome-memory-core/src/seal.rs: `RouteChoices::best_in` beside a scan of the nodes one by one.
use naome_memory.Base.{
  ℕ, zero, suc, ◌+◌, ◌*◌, ◌/◌, ◌%◌, ◌-◌, ◌≤◌, ◌<◌, ◌≡◌, ◌∙◌, refl, sym, ap, inl, inr, List, Option,
  none, arith, ltb, ◌==◌, Bool-cases, ltb→lt,
}
use naome_memory.Seal.Routes.{RouteChoice, best_route_choice, node_at, best_from}
use naome_memory.Seal.Routes.Choice.{best_none, best_assoc, best_comm}
use naome_memory.Seal.Routes.Tree.{IsTree}

-- The best of so many nodes from `start` on.
unfoldable pub scan : List (Option RouteChoice) → ℕ → ℕ → Option RouteChoice
scan nodes start zero = none
scan nodes start (suc count) =
    best_route_choice (node_at nodes start) (scan nodes (suc start) count)

regroup :
    (b x y r : Option RouteChoice)
    → best_route_choice (best_route_choice (best_route_choice b x) y) r
      ≡ best_route_choice b (best_route_choice x (best_route_choice r y))
regroup b x y r =
    best_assoc (best_route_choice b x) y r
    ∙ best_assoc b x (best_route_choice y r)
    ∙ ap (λ c. best_route_choice b (best_route_choice x c)) (best_comm y r)

module _ (nodes : List (Option RouteChoice)) where
  abbrev pub over : ℕ → ℕ → Option RouteChoice
  over start end = scan nodes start (end - start)

  -- The same scan, its bounds written in another way.
  scan_eq : (s t c d : ℕ) → s ≡ t → c ≡ d → scan nodes s c ≡ scan nodes t d
  scan_eq s t c d p q = cc

  scan_first :
      (start count : ℕ)
      → 0 < count
      → scan nodes start count
        ≡ best_route_choice (node_at nodes start) (scan nodes (start + 1) (count - 1))
  unfolding scan
  scan_first start zero h = absurd (omega arith)
  scan_first start (suc count) h =
      ap (best_route_choice (node_at nodes start))
        (scan_eq (suc start) (start + 1) count (suc count - 1) (omega arith) (omega arith))

  scan_empty : (start count : ℕ) → count ≡ 0 → scan nodes start count ≡ none
  unfolding scan
  scan_empty start zero h = refl
  scan_empty start (suc count) h = absurd (omega arith)

  scan-last :
      (count start : ℕ)
      → scan nodes start (suc count)
        ≡ best_route_choice (scan nodes start count) (node_at nodes (start + count))
  unfolding scan best_route_choice
  scan-last zero start = best_none (node_at nodes start) ∙ ap (node_at nodes) (omega arith)
  scan-last (suc count) start =
      let inner = scan-last count (suc start) in
      let e : suc start + count ≡ start + suc count = omega arith in
      ap (best_route_choice (node_at nodes start)) (rw e at inner)
      ∙ sym (best_assoc (node_at nodes start) _ _)

  over_first :
      (start end : ℕ)
      → start < end
      → over start end ≡ best_route_choice (node_at nodes start) (over (start + 1) end)
  over_first start end h =
      scan_first start (end - start) (omega arith)
      ∙ ap (best_route_choice (node_at nodes start))
          (scan_eq (start + 1) (start + 1) (end - start - 1) (end - (start + 1)) refl (omega arith))

  over_last :
      (start end : ℕ)
      → start < end
      → over start end ≡ best_route_choice (over start (end - 1)) (node_at nodes (end - 1))
  over_last start end h =
      let f : start + (end - 1 - start) ≡ end - 1 = omega arith in
      scan_eq start start (end - start) (suc (end - 1 - start)) refl (omega arith)
      ∙ scan-last (end - 1 - start) start
      ∙ ap (λ k. best_route_choice (over start (end - 1)) (node_at nodes k)) f

  module _ (leaf : ℕ) (tree : IsTree leaf nodes) where
    scan_pairs :
        (count start twice pairs : ℕ)
        → twice ≡ start * 2
        → pairs ≡ count * 2
        → 1 ≤ start
        → start + count ≤ leaf
        → scan nodes twice pairs ≡ scan nodes start count
    unfolding scan
    scan_pairs zero start twice pairs p q low high = scan_eq twice twice pairs 0 refl (omega arith)
    scan_pairs (suc count) start twice pairs p q low high =
        let rest =
          scan_pairs count (suc start) (twice + 1 + 1) (pairs - 1 - 1) (omega arith) (omega arith)
            (omega arith) (omega arith) in
        let children = tree start low (omega arith) in
        let first = scan_first twice pairs (omega arith) in
        let second = scan_first (twice + 1) (pairs - 1) (omega arith) in
        let group =
          best_assoc (node_at nodes twice) (node_at nodes (twice + 1))
            (scan nodes (twice + 1 + 1) (pairs - 1 - 1)) in
        let left : node_at nodes twice ≡ node_at nodes (start * 2) = ap (node_at nodes) p in
        let right : node_at nodes (twice + 1) ≡ node_at nodes (start * 2 + 1) =
          ap (λ k. node_at nodes (k + 1)) p in
        cc

    over_pairs :
        (start end low high : ℕ)
        → start ≡ low * 2
        → end ≡ high * 2
        → 1 ≤ low
        → low ≤ high
        → high ≤ leaf
        → over start end ≡ over low high
    over_pairs start end low high p q one order few =
        scan_pairs (high - low) low start (end - start) p (omega arith) one (omega arith)

    -- One round: what it takes at either end, and the parents of the rest.
    module _ (start end low high : ℕ) (best : Option RouteChoice) (one : 1 ≤ start)
        (few : end ≤ leaf * 2) (more : start < end) where
      round_even :
          start ≡ low * 2
          → end ≡ high * 2
          → best_route_choice best (over low high) ≡ best_route_choice best (over start end)
      round_even p q =
          ap (best_route_choice best)
            (sym (over_pairs start end low high p q (omega arith) (omega arith) (omega arith)))

      round_left :
          start + 1 ≡ low * 2
          → end ≡ high * 2
          → best_route_choice (best_route_choice best (node_at nodes start)) (over low high)
            ≡ best_route_choice best (over start end)
      round_left p q =
          let first = over_first start end more in
          let pairs =
            over_pairs (start + 1) end low high p q (omega arith) (omega arith) (omega arith) in
          let group = best_assoc best (node_at nodes start) (over low high) in cc

      round_right :
          start ≡ low * 2
          → end ≡ high * 2 + 1
          → best_route_choice (best_route_choice best (node_at nodes (end - 1))) (over low high)
            ≡ best_route_choice best (over start end)
      round_right p q =
          let last = over_last start end more in
          let pairs =
            over_pairs start (end - 1) low high p (omega arith) (omega arith) (omega arith)
              (omega arith) in
          let group = best_assoc best (node_at nodes (end - 1)) (over low high) in
          let swap = best_comm (node_at nodes (end - 1)) (over low high) in cc

      round_both :
          start + 1 ≡ low * 2
          → end ≡ high * 2 + 1
          → best_route_choice
              (best_route_choice
                (best_route_choice best (node_at nodes start))
                (node_at nodes (end - 1)))
              (over low high)
            ≡ best_route_choice best (over start end)
      round_both p q =
          let first = over_first start end more in
          let last = over_last (start + 1) end (omega arith) in
          let pairs =
            over_pairs (start + 1) (end - 1) low high p (omega arith) (omega arith) (omega arith)
              (omega arith) in
          let group =
            regroup best (node_at nodes start) (node_at nodes (end - 1)) (over low high) in
          cc

    -- The loop, with fuel beyond `end`, is the scan.
    pub best_from-over :
        (fuel start end : ℕ) (best : Option RouteChoice)
        → 1 ≤ start
        → end ≤ leaf * 2
        → end < fuel
        → best_from fuel nodes start end best ≡ best_route_choice best (over start end)
    unfolding best_from
    best_from-over zero start end best one few enough = absurd (omega arith)
    best_from-over (suc fuel) start end best one few enough = elim (Bool-cases (ltb start end)) [
      | inr n ↦ rw n (
          sym (best_none best)
          ∙ ap (best_route_choice best) (sym (scan_empty start (end - start) (ground arith))))
      | inl y ↦
          let more = ltb→lt start end y in
          elim (Bool-cases (start % 2 == 1)) [
            | inl l ↦ elim (Bool-cases (end % 2 == 1)) [
              | inl r ↦
                  rw (y, l, r)
                    (best_from-over fuel ((start + 1) / 2) ((end - 1) / 2) _ (omega arith)
                        (omega arith) (omega arith)
                      ∙ round_both start end _ _ best one few more (ground arith) (ground arith))
              | inr r ↦
                  rw (y, l, r)
                    (best_from-over fuel ((start + 1) / 2) (end / 2) _ (omega arith) (omega arith)
                        (omega arith)
                      ∙ round_left start end _ _ best one few more (ground arith) (ground arith))
            ]
            | inr l ↦ elim (Bool-cases (end % 2 == 1)) [
              | inl r ↦
                  rw (y, l, r)
                    (best_from-over fuel (start / 2) ((end - 1) / 2) _ (ground arith) (omega arith)
                        (omega arith)
                      ∙ round_right start end _ _ best one few more (ground arith) (ground arith))
              | inr r ↦
                  rw (y, l, r)
                    (best_from-over fuel (start / 2) (end / 2) _ (ground arith) (omega arith)
                        (omega arith)
                      ∙ round_even start end _ _ best one few more (ground arith) (ground arith))
            ]
          ]
    ]
