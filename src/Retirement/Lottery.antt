-- ===== src/Retirement/Lottery.antt =====
-- crates/naome-memory-core/src/retirement.rs: the uniform draw without replacement that picks the
-- exact episodes of a cohort and the flashbacks of a query.
--
-- The generator is the stream of its outputs, with the position of the next. The rejection loop takes
-- fuel for each draw, and `none` says that it is still drawing when that is used up; the draw returns
-- for every stream that has, in any `fuel` outputs on end, one that is not rejected.
pub mod Uniform
pub mod Shares
pub mod Arrangement
pub mod Sampling
pub mod Picks
use naome_memory.Base.{
  ℕ, zero, suc, ◌+◌, ◌-◌, ◌%◌, List, [], ◌∷◌, Option, none, some, min, leb, get_or, set, take,
  if◌then◌else◌, u64_mod,
}

-- `bound.wrapping_neg() % bound`
unfoldable pub threshold : ℕ → ℕ
threshold bound = (u64_mod - bound) % u64_mod % bound

-- The loop of `uniform_below`: the value drawn, and the position behind it.
unfoldable pub draw : ℕ → (ℕ → ℕ) → ℕ → ℕ → Option (ℕ × ℕ)
unfolding threshold
draw zero stream position bound = none
draw (suc fuel) stream position bound =
    let again = draw fuel stream (position + 1) bound in
    if leb (threshold bound) (stream position)
    then some (stream position % bound, position + 1)
    else again

unfoldable pub uniform_below : ℕ → (ℕ → ℕ) → ℕ → ℕ → Option (ℕ × ℕ)
unfolding draw
uniform_below fuel stream position bound =
    let drawn = draw fuel stream position bound in if leb bound 1 then some (0, position) else drawn

-- `positions.swap(i, j)`
unfoldable pub swap : List ℕ → ℕ → ℕ → List ℕ
swap xs i j = set (set xs i (get_or xs j 0)) j (get_or xs i 0)

-- `(from..from + count).collect()`
unfoldable pub range : ℕ → ℕ → List ℕ
range zero from = []
range (suc count) from = from ∷ range count (from + 1)

-- The rounds of `partial_fisher_yates` that are left, from `index` on.
unfoldable pub shuffle : ℕ → (ℕ → ℕ) → ℕ → ℕ → ℕ → ℕ → List ℕ → Option (List ℕ)
unfolding uniform_below swap
shuffle fuel stream population zero index position positions = some positions
shuffle fuel stream population (suc rounds) index position positions =
    elim (uniform_below fuel stream position (population - index)) [
      | none ↦ none
      | some (offset, position') ↦
          shuffle fuel stream population rounds (index + 1) position'
            (swap positions index (index + offset))
    ]

abbrev pub truncated : ℕ → Option (List ℕ) → Option (List ℕ)
truncated n none = none
truncated n (some positions) = some (take n positions)

unfoldable pub partial_fisher_yates : ℕ → (ℕ → ℕ) → ℕ → ℕ → Option (List ℕ)
unfolding shuffle range
partial_fisher_yates fuel stream population count =
    truncated (min count population)
      (shuffle fuel stream population (min count population) 0 0 (range population 0))
