-- ===== src/Fixed/Bounds.antt =====
-- Rounding and range of the arithmetic in crates/naome-memory-core/src/fixed.rs.
use naome_memory.Base.{
  ℕ, ◌+◌, ◌*◌, ◌/◌, ◌≤◌, ◌<◌, ◌≡◌, List, [], ◌∷◌, some, arith, length, All, u64_mod,
}
use native.Mathlib.Nat.{mul_comm, mul-le-mul_left, mul-le-mul_right, mod-eq_of_lt}
use naome_memory.Base.{saturating_add, ◌^◌, div_floor, div-le}
use naome_memory.Fixed.{
  Ppm, scale, ratio, multiply, mean_from, mean, ceil_count, sum_capped, from_raw_unchecked,
}

pub ratio-le : (n d : ℕ) → ratio n d ≤ scale
unfolding ratio
ratio-le n d = ground arith

-- For n at most d, and d positive and below 2^64, `ratio n d` is the floor of n / d in millionths.
pub ratio_floor :
    (n d : ℕ)
    → n ≤ d
    → 0 < d
    → d < u64_mod
    → (ratio n d * d ≤ n * scale) × (n * scale < (ratio n d + 1) * d)
unfolding ratio
ratio_floor n d le pos fits =
    let floor = div_floor (n * scale) d pos in
    let small = div-le (n * scale) d scale (mul-le-mul_right scale le) in
    grind (arith, floor, small)

-- The product of two values of at most 1 is at most each of them.
pub multiply-le : (a b : Ppm) → a ≤ scale → b ≤ scale → (multiply a b ≤ a) × (multiply a b ≤ b)
unfolding multiply
multiply-le a b h k = (
  grind (arith, div-le (a * b) scale a (rw (mul_comm scale a) (mul-le-mul_left a k))),
  grind (arith, div-le (a * b) scale b (mul-le-mul_right b h)),
)

-- For a rate of at most 1 and a population below 2^64, `ceil_count` is the ceiling of their product, and
-- at most the population.
pub ceil_count_exact :
    (rate : Ppm) (population : ℕ)
    → rate ≤ scale
    → population < u64_mod
    → (population * rate ≤ ceil_count rate population * scale)
      × (ceil_count rate population * scale < population * rate + scale)
      × (ceil_count rate population ≤ population)
unfolding ceil_count
ceil_count_exact rate population h k = let small = mul-le-mul_left population h in ground arith

le_of_mul-lt : (a b c : ℕ) → a * c < (b + 1) * c → a ≤ b
le_of_mul-lt a b c h = grind arith

-- The division at the end of `mean_from`, when nothing has wrapped.
mean_end :
    (lo hi count sum : ℕ)
    → 0 < count
    → lo * count ≤ sum
    → sum ≤ hi * count
    → (lo ≤ (sum + count / 2) / count) × ((sum + count / 2) / count ≤ hi)
mean_end lo hi count sum pos low high =
    let floor = div_floor (sum + count / 2) count pos in
    (
      le_of_mul-lt lo ((sum + count / 2) / count) count (omega (arith, floor)),
      le_of_mul-lt ((sum + count / 2) / count) hi count (omega (arith, floor)),
    )

mean_from_bounds :
    (lo hi : Ppm) (count sum : ℕ) (values : List Ppm)
    → hi ≤ scale
    → 0 < count + length values
    → count + length values ≤ 2 ^ 43
    → lo * count ≤ sum
    → sum ≤ hi * count
    → All (λ v. (lo ≤ v) × (v ≤ hi)) values
    → (lo ≤ mean_from count sum values) × (mean_from count sum values ≤ hi)
unfolding mean_from
mean_from_bounds lo hi count sum [] cap some_value few low high all =
    let small = mul-le-mul_right count cap in
    let ends = mean_end lo hi count sum (omega arith) low high in
    ground (arith, ends, mod-eq_of_lt {n = sum + count / 2} {m = u64_mod} (omega arith))
mean_from_bounds lo hi count sum (v ∷ values) cap some_value few low high all =
    let small = mul-le-mul_right count cap in
    let counted : saturating_add count 1 ≡ count + 1 = omega arith in
    let summed : saturating_add sum v ≡ sum + v = omega arith in
    rw (counted, summed)
      (mean_from_bounds lo hi (count + 1) (sum + v) values cap (omega arith) (omega arith)
        (omega arith) (omega arith) all.1)

-- The mean of 1 to 2^43 values lies between any two bounds of the values, the upper one at most 1.
pub mean_bounds :
    (lo hi : Ppm) (values : List Ppm)
    → hi ≤ scale
    → 0 < length values
    → length values ≤ 2 ^ 43
    → All (λ v. (lo ≤ v) × (v ≤ hi)) values
    → (lo ≤ mean values) × (mean values ≤ hi)
unfolding mean
mean_bounds lo hi values cap some_value few all =
    mean_from_bounds lo hi 0 0 values cap (omega arith) (omega arith) (omega arith) (omega arith)
      all

-- A capped sum of in-range values never trips the assertion of `from_raw_unchecked`.
pub sum_capped_in_range :
    (values : List Ppm) → from_raw_unchecked (sum_capped values) ≡ some (sum_capped values)
unfolding from_raw_unchecked sum_capped
sum_capped_in_range values = ground arith
