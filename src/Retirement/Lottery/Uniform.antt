-- ===== src/Retirement/Lottery/Uniform.antt =====
-- The rejection loop of crates/naome-memory-core/src/retirement.rs.
use naome_memory.Base.{
  ℕ, zero, suc, ◌+◌, ◌-◌, ◌*◌, ◌/◌, ◌≤◌, ◌<◌, ◌≡◌, ◌≢◌, subst, none, some, arith, leb, Bool-cases,
  inl, inr, u64_mod,
}
use native.Mathlib.Nat.{mod-lt, mod-eq_of_lt, div-add-mod', add-zero}
use naome_memory.Retirement.Lottery.{threshold, draw, uniform_below}

pub threshold-lt : (bound : ℕ) → 0 < bound → threshold bound < bound
unfolding threshold
threshold-lt bound pos = mod-lt _ pos

-- Below 2^64 the outputs from the threshold on are a whole number of runs of `bound` consecutive outputs.
pub threshold_runs :
    (bound : ℕ)
    → 0 < bound
    → bound ≤ u64_mod
    → (runs : ℕ) × (u64_mod ≡ runs * bound + threshold bound)
unfolding threshold
threshold_runs bound pos fits =
    let small = mod-eq_of_lt {n = u64_mod - bound} {m = u64_mod} (omega arith) in
    let split = div-add-mod' (u64_mod - bound) bound in
    ((u64_mod - bound) / bound + 1, rw small (omega (arith, split)))

draw-lt :
    (fuel : ℕ) (stream : ℕ → ℕ) (position bound value next : ℕ)
    → 0 < bound
    → draw fuel stream position bound ≡ some (value, next)
    → value < bound
unfolding draw
draw-lt zero stream position bound value next pos h = cc
draw-lt (suc fuel) stream position bound value next pos h =
    ground
      (arith, draw-lt fuel stream (position + 1) bound value next, mod-lt (stream position) pos)

-- The value drawn is below the bound.
pub uniform_below-lt :
    (fuel : ℕ) (stream : ℕ → ℕ) (position bound value next : ℕ)
    → 0 < bound
    → uniform_below fuel stream position bound ≡ some (value, next)
    → value < bound
unfolding uniform_below
uniform_below-lt fuel stream position bound value next pos h =
    ground (arith, draw-lt fuel stream position bound value next)

-- In any `fuel` outputs on end there is one of at least `limit`.
abbrev pub Accepts : ℕ → ℕ → (ℕ → ℕ) → Type 0
Accepts fuel limit stream = (position : ℕ) → (n : ℕ) × (n < fuel) × (limit ≤ stream (position + n))

draw_total :
    (fuel : ℕ) (stream : ℕ → ℕ) (position bound n : ℕ)
    → n < fuel
    → threshold bound ≤ stream (position + n)
    → draw fuel stream position bound ≢ none
unfolding draw
draw_total zero stream position bound n h k = absurd (omega arith)
draw_total (suc fuel) stream position bound zero h k = ground (arith, add-zero position)
draw_total (suc fuel) stream position bound (suc n) h k =
    let there : threshold bound ≤ stream (position + 1 + n) =
      subst (λ p. threshold bound ≤ stream p) (omega arith) k in
    ground (arith, draw_total fuel stream (position + 1) bound n (omega arith) there)

pub uniform_below_total :
    (fuel limit : ℕ) (stream : ℕ → ℕ) (position bound : ℕ)
    → Accepts fuel limit stream
    → bound ≤ limit
    → uniform_below fuel stream position bound ≢ none
unfolding uniform_below
uniform_below_total fuel limit stream position bound accepts h =
    let (n, small, there) = accepts position in
    elim (Bool-cases (leb bound 1)) [
      | inl e ↦ rw e (λ p. cc)
      | inr e ↦
          rw e (draw_total fuel stream position bound n small (ground (arith, threshold-lt bound)))
    ]
