-- ===== src/Fixed.antt =====
-- crates/naome-memory-core/src/fixed.rs: fixed-point values in millionths.
--
-- A `Ppm` is its raw number; that it is at most `scale` is a hypothesis or a theorem. A conversion
-- to `u32` that falls back to `SCALE` and is then bounded by `SCALE` is that bound alone.
pub mod Bounds
use naome_memory.Base.{
  ℕ, zero, suc, ◌+◌, ◌-◌, ◌*◌, ◌/◌, ◌%◌, min, List, [], ◌∷◌, Option, none, some, Bool, ltb, leb,
  ◌==◌, if◌then◌else◌, u64_mod, u64_max, u128_max, saturating_add, div_ceil,
}

abbrev pub Ppm : Type 0
Ppm = ℕ

abbrev pub scale : ℕ
scale = 1_000_000

-- `Ppm::new`; `none` is the error `InvalidPpm { value }`.
unfoldable pub new : ℕ → Option Ppm
new value = if leb value scale then some value else none

-- `Ppm::from_raw_unchecked`; `none` is the panic of its assertion.
unfoldable pub from_raw_unchecked : ℕ → Option Ppm
from_raw_unchecked value = if leb value scale then some value else none

unfoldable pub ratio : ℕ → ℕ → Ppm
ratio numerator denominator =
    if denominator == 0 then 0 else min (min (numerator * scale) u128_max / denominator) scale

unfoldable pub multiply : Ppm → Ppm → Ppm
multiply a b = min (a * b / scale) scale

unfoldable pub complement : Ppm → Ppm
complement a = scale - a

-- The loop of `Ppm::mean` over the values, on the number of values and their sum so far.
unfoldable pub mean_from : ℕ → ℕ → List Ppm → Ppm
mean_from count sum [] = if count == 0 then 0 else min ((sum + count / 2) % u64_mod / count) scale
mean_from count sum (value ∷ values) =
    mean_from (saturating_add count 1) (saturating_add sum value) values

unfoldable pub mean : List Ppm → Ppm
unfolding mean_from
mean values = mean_from 0 0 values

unfoldable pub ceil_count : Ppm → ℕ → ℕ
ceil_count rate population = min (div_ceil (population * rate) scale) u64_max

-- The plain sum of a list of values.
abbrev pub total : List Ppm → ℕ
total [] = 0
total (value ∷ values) = value + total values

-- `sum_positive` of retirement.rs and `sum_scores` of retrieval.rs.
unfoldable pub sum_capped : List Ppm → Ppm
sum_capped values = min (total values) scale
