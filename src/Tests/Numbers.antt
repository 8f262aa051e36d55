-- ===== src/Tests/Numbers.antt =====
-- Fixed-point values, byte totals and the lottery at concrete inputs.
use naome_memory.Base.{
  ◌≡◌, refl, ℕ, ◌≤◌, ◌<◌, ◌+◌, ◌-◌, ◌*◌, ◌%◌, List, [], ◌∷◌, some, arith, u64_mod, u64_max,
}
use naome_memory.Error.{err, canonical_encoding}
use naome_memory.Fixed.{scale, ratio, multiply, mean, ceil_count, from_raw_unchecked, sum_capped}
use naome_memory.Fixed.Bounds.{
  ratio_floor, multiply-le, ceil_count_exact, mean_bounds, sum_capped_in_range,
}
use naome_memory.Digests.{checked_total}
use naome_memory.Digests.Sizes.{checked_total_lem}
use naome_memory.Retirement.Lottery.{threshold, uniform_below, partial_fisher_yates}
use naome_memory.Retirement.Lottery.Uniform.{Accepts}
use naome_memory.Retirement.Lottery.Shares.{share, or_else, uniform_below-share}
use naome_memory.Retirement.Lottery.Sampling.{
  IsSample, partial_fisher_yates-IsSample, partial_fisher_yates_total,
}

ratio_floor_example : (ratio 1 3 * 3 ≤ 1 * scale) × (1 * scale < (ratio 1 3 + 1) * 3)
ratio_floor_example = ratio_floor 1 3 (omega arith) (omega arith) (omega arith)

multiply-le_example : (multiply 600_000 333_333 ≤ 600_000) × (multiply 600_000 333_333 ≤ 333_333)
multiply-le_example = multiply-le 600_000 333_333 (omega arith) (omega arith)

ceil_count_exact_example :
    (150 * 20_000 ≤ ceil_count 20_000 150 * scale)
    × (ceil_count 20_000 150 * scale < 150 * 20_000 + scale)
    × (ceil_count 20_000 150 ≤ 150)
ceil_count_exact_example = ceil_count_exact 20_000 150 (omega arith) (omega arith)

mean_bounds_example :
    (100_000 ≤ mean (100_000 ∷ 400_001 ∷ [])) × (mean (100_000 ∷ 400_001 ∷ []) ≤ 400_001)
mean_bounds_example =
    mean_bounds 100_000 400_001 (100_000 ∷ 400_001 ∷ []) (omega arith) (omega arith) (omega arith)
      ((omega arith, omega arith), ((omega arith, omega arith), tt))

sum_capped_in_range_example :
    from_raw_unchecked (sum_capped (600_000 ∷ 500_000 ∷ []))
    ≡ some (sum_capped (600_000 ∷ 500_000 ∷ []))
sum_capped_in_range_example = sum_capped_in_range (600_000 ∷ 500_000 ∷ [])

abbrev stream : ℕ → ℕ
stream n = 1_000_000 - n % 10

uniform_below-share_example :
    (uniform_below 2 stream 0 6
      ≡ or_else (uniform_below 1 (λ p. stream 0) 0 6) 1 (uniform_below 1 stream 1 6))
    × (u64_mod ≡ share u64_mod 6 2 * 6 + threshold 6)
    × (threshold 6 < 6)
uniform_below-share_example =
    uniform_below-share 1 stream 0 6 2 (omega arith) (omega arith) (omega arith)

drawn : partial_fisher_yates 1 stream 5 2 ≡ some (0 ∷ 4 ∷ [])
unfolding partial_fisher_yates
drawn = refl

partial_fisher_yates-IsSample_example : IsSample 5 2 (0 ∷ 4 ∷ [])
partial_fisher_yates-IsSample_example =
    partial_fisher_yates-IsSample 1 stream 5 2 (0 ∷ 4 ∷ []) drawn

stream-Accepts : Accepts 1 5 stream
stream-Accepts position = (0, omega arith, omega arith)

partial_fisher_yates_total_example :
    (sample : List ℕ) × (partial_fisher_yates 1 stream 5 2 ≡ some sample) × IsSample 5 2 sample
partial_fisher_yates_total_example = partial_fisher_yates_total 1 stream 5 2 stream-Accepts

checked_total_lem_example :
    checked_total "overflow" 3 (4 ∷ u64_max ∷ []) ≡ err (canonical_encoding "overflow")
checked_total_lem_example = checked_total_lem "overflow" 3 (4 ∷ u64_max ∷ []) (omega arith)
