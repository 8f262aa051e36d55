-- ===== src/Seal/Routes/Inserted.antt =====
-- crates/naome-memory-core/src/seal.rs: `RouteChoices` after any sequence of insertions.
use naome_memory.Base.{
  ℕ, ◌-◌, ◌^◌, ◌≤◌, ◌<◌, ◌≡◌, ◌∙◌, refl, List, [], ◌∷◌, Option, none, All, All-map, arith,
}
use naome_memory.Seal.Routes.{RouteChoice, RouteChoices, new_routes, insert, best_in}
use naome_memory.Seal.Routes.Store.{
  Stores, put, best_of, insert-Stores, best_in-best_of, new_routes-Stores, leaf_count-new,
  leaf_count-insert,
}

-- Boundaries with their remaining segments, inserted in order.
unfoldable pub insert_all : RouteChoices → List (ℕ × ℕ) → RouteChoices
insert_all routes [] = routes
insert_all routes ((index, remaining) ∷ rest) = insert_all (insert routes index remaining) rest

-- The choice at a boundary: the last that was put there.
unfoldable pub put_all : (ℕ → Option RouteChoice) → List (ℕ × ℕ) → ℕ → Option RouteChoice
put_all choice [] = choice
put_all choice ((index, remaining) ∷ rest) = put_all (put choice index remaining) rest

insert_all-Stores :
    (entries : List (ℕ × ℕ)) (routes : RouteChoices) (choice : ℕ → Option RouteChoice)
    → Stores routes choice
    → All (λ e. e.0 < routes.leaf_count) entries
    → Stores (insert_all routes entries) (put_all choice entries)
      × ((insert_all routes entries).leaf_count ≡ routes.leaf_count)
unfolding insert_all put_all
insert_all-Stores [] routes choice s h = (s, refl)
insert_all-Stores ((index, remaining) ∷ rest) routes choice s h =
    let same = leaf_count-insert routes index remaining in
    let (t, e) =
      insert_all-Stores rest (insert routes index remaining) (put choice index remaining)
        (insert-Stores routes choice s index remaining h.0)
        (All-map _ _ rest (λ e f. omega arith) h.1) in
    (t, e ∙ same)

-- After any insertions at boundaries below the count that the routes were made for, up to 2^62, `best_in`
-- gives the best of the choices at the boundaries from `start` to before `end`, compared one by one, where
-- the choice at a boundary is the last one inserted there.
pub best_in-insert_all :
    (count : ℕ) (entries : List (ℕ × ℕ)) (start end : ℕ)
    → 1 ≤ count
    → count ≤ 2 ^ 62
    → All (λ e. e.0 < count) entries
    → start ≤ end
    → end ≤ count
    → best_in (insert_all (new_routes count) entries) start end
      ≡ best_of (put_all (λ i. none) entries) start (end - start)
best_in-insert_all count entries start end one few h low high =
    let room = leaf_count-new count in
    let (s, e) =
      insert_all-Stores entries (new_routes count) (λ i. none) (new_routes-Stores count one few)
        (All-map _ _ entries (λ e f. omega arith) h) in
    best_in-best_of _ _ start end s low (omega arith)
