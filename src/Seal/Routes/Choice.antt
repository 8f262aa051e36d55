-- ===== src/Seal/Routes/Choice.antt =====
-- crates/naome-memory-core/src/seal.rs: `best_route_choice`, as an operation on the choices.
use naome_memory.Base.{◌≤◌, ◌⊎◌, inl, inr, Bool-cases, ◌≡◌, refl, Option, none, some, arith}
use naome_memory.Seal.Routes.{RouteChoice, best_route_choice, better_than}

pub best_none : (a : Option RouteChoice) → best_route_choice a none ≡ a
unfolding best_route_choice
best_none none = refl
best_none (some a) = refl

pub best_comm : (a b : Option RouteChoice) → best_route_choice a b ≡ best_route_choice b a
unfolding best_route_choice better_than
best_comm none b = ground arith
best_comm (some a) none = refl
best_comm (some a) (some b) = ground arith

pub best_assoc :
    (a b c : Option RouteChoice)
    → best_route_choice (best_route_choice a b) c ≡ best_route_choice a (best_route_choice b c)
unfolding best_route_choice better_than
best_assoc none b c = refl
best_assoc (some a) none c = refl
best_assoc (some a) (some b) none = ground arith
best_assoc (some a) (some b) (some c) = ground arith

pub best_self : (a : Option RouteChoice) → best_route_choice a a ≡ a
unfolding best_route_choice better_than
best_self none = refl
best_self (some a) = ground arith

-- One of the two is kept.
pub best-cases :
    (a b : Option RouteChoice) → (best_route_choice a b ≡ a) ⊎ (best_route_choice a b ≡ b)
unfolding best_route_choice
best-cases none b = inr refl
best-cases (some a) none = inl refl
best-cases (some a) (some b) = elim (Bool-cases (better_than a b)) [
  | inl e ↦ inl (rw e refl)
  | inr e ↦ inr (rw e refl)
]

-- The kept one needs no more segments, and among those that need as many it ends last.
pub kept-le :
    (c d : RouteChoice)
    → best_route_choice (some c) (some d) ≡ some c
    → (c.remaining_segments ≤ d.remaining_segments)
      × (c.remaining_segments ≡ d.remaining_segments → d.end ≤ c.end)
unfolding best_route_choice better_than
kept-le c d h = ground arith
