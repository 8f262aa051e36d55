-- ===== src/Retirement/Lottery/Sampling.antt =====
-- The draw of crates/naome-memory-core/src/retirement.rs as a sample.
use naome_memory.Base.{
  ℕ, zero, suc, ◌<◌, ◌≡◌, ◌≢◌, refl, sym, subst, false, List, [], ◌∷◌, Option, none, some, arith,
  Option-cases, inl, inr, min, length, get_or, take, some_inj, All, All-take, set_contains, nat_ord,
  length-take,
}
use naome_memory.Base.Sets.{Distinct}
use naome_memory.Retirement.Lottery.{range, shuffle, truncated, partial_fisher_yates}
use naome_memory.Retirement.Lottery.Uniform.{Accepts}
use naome_memory.Retirement.Lottery.Arrangement.{
  IsArrangement, none-ne-some, range-IsArrangement, shuffle-IsArrangement, shuffle_total,
}

-- From an arrangement, by position, to its elements.
tail_once :
    (n : ℕ) (x : ℕ) (xs : List ℕ)
    → ((j k : ℕ) → j < suc n → k < suc n → get_or (x ∷ xs) j 0 ≡ get_or (x ∷ xs) k 0 → j ≡ k)
    → (j k : ℕ) → j < n
    → k < n
    → get_or xs j 0 ≡ get_or xs k 0
    → j ≡ k
tail_once n x xs once j k hj hk e =
    omega (arith, once (suc j) (suc k) (omega arith) (omega arith) e)

apart_from :
    (x : ℕ) (xs : List ℕ)
    → ((k : ℕ) → k < length xs → get_or xs k 0 ≢ x)
    → set_contains x xs ≡ false
apart_from x [] h = refl
apart_from x (y ∷ ys) h =
    ground (arith, h 0 (omega arith), apart_from x ys (λ k l. h (suc k) (omega arith)))

Distinct-of_once :
    (xs : List ℕ)
    → ((j k : ℕ) → j < length xs → k < length xs → get_or xs j 0 ≡ get_or xs k 0 → j ≡ k)
    → Distinct xs
Distinct-of_once [] h = tt
Distinct-of_once (x ∷ xs) h = (
  apart_from x xs
      (λ k l e. absurd (omega (arith, h 0 (suc k) (omega arith) (omega arith) (sym e)))),
  Distinct-of_once xs (tail_once (length xs) x xs h),
)

All-of_below :
    (n : ℕ) (xs : List ℕ) → ((k : ℕ) → k < length xs → get_or xs k 0 < n) → All (λ x. x < n) xs
All-of_below n [] h = tt
All-of_below n (x ∷ xs) h = (h 0 (omega arith), All-of_below n xs (λ k l. h (suc k) (omega arith)))

contains-take :
    (x k : ℕ) (xs : List ℕ) → set_contains x xs ≡ false → set_contains x (take k xs) ≡ false
contains-take x zero xs h = refl
contains-take x (suc k) [] h = refl
contains-take x (suc k) (y ∷ ys) h = ground (arith, contains-take x k ys)

Distinct-take : (k : ℕ) (xs : List ℕ) → Distinct xs → Distinct (take k xs)
Distinct-take zero xs h = tt
Distinct-take (suc k) [] h = tt
Distinct-take (suc k) (x ∷ xs) h = (contains-take x k xs h.0, Distinct-take k xs h.1)

-- A sample: as many as asked for, or the whole population, distinct, and positions of the population.
pub record IsSample (population count : ℕ) (sample : List ℕ) : Type 0 where
  pub sized : length sample ≡ min count population
  pub below : All (λ p. p < population) sample
  pub distinct : Distinct sample

arrangement-IsSample :
    (population count : ℕ) (xs : List ℕ)
    → IsArrangement population xs
    → IsSample population count (take (min count population) xs)
arrangement-IsSample population count xs a = record {
  sized = omega (arith, length-take (min count population) xs, a.sized);
  below =
      All-take (λ p. p < population) (min count population) xs
        (All-of_below population xs (λ k h. a.below k (omega (arith, a.sized))));
  distinct = Distinct-take (min count population) xs (
      Distinct-of_once xs
        (λ j k hj hk. a.once j k (omega (arith, a.sized)) (omega (arith, a.sized))));
}

-- Whatever the stream, a draw that returns is a sample without replacement.
pub partial_fisher_yates-IsSample :
    (fuel : ℕ) (stream : ℕ → ℕ) (population count : ℕ) (sample : List ℕ)
    → partial_fisher_yates fuel stream population count ≡ some sample
    → IsSample population count sample
unfolding partial_fisher_yates
partial_fisher_yates-IsSample fuel stream population count sample e =
    elim (Option-cases
      (shuffle fuel stream population (min count population) 0 0 (range population 0))) [
        | inl stuck ↦ absurd (none-ne-some (rw (stuck, truncated) at e))
        | inr (xs, drawn) ↦
            subst (IsSample population count) (some_inj (rw (drawn, truncated) at e)) (
              arrangement-IsSample population count xs (
                shuffle-IsArrangement fuel stream population (min count population) 0 0
                  (range population 0) xs (omega arith) (range-IsArrangement population) drawn))
      ]

truncated-none : (n : ℕ) (o : Option (List ℕ)) → truncated n o ≡ none → o ≡ none
truncated-none n none e = refl
truncated-none n (some xs) e = cc

partial_fisher_yates-ne-none :
    (fuel : ℕ) (stream : ℕ → ℕ) (population count : ℕ)
    → Accepts fuel population stream
    → partial_fisher_yates fuel stream population count ≢ none
unfolding partial_fisher_yates
partial_fisher_yates-ne-none fuel stream population count accepts e =
    shuffle_total fuel stream population (min count population) 0 0 (range population 0) accepts
      (truncated-none (min count population) _ e)

-- If any `fuel` outputs of the stream on end have one of at least the population, the draw returns a
-- sample without replacement.
pub partial_fisher_yates_total :
    (fuel : ℕ) (stream : ℕ → ℕ) (population count : ℕ)
    → Accepts fuel population stream
    → (sample : List ℕ) × (partial_fisher_yates fuel stream population count ≡ some sample)
      × IsSample population count sample
partial_fisher_yates_total fuel stream population count accepts =
    elim (Option-cases (partial_fisher_yates fuel stream population count)) [
      | inl stuck ↦ absurd (partial_fisher_yates-ne-none fuel stream population count accepts stuck)
      | inr (sample, e) ↦
          (sample, e, partial_fisher_yates-IsSample fuel stream population count sample e)
    ]
