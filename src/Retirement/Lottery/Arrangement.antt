-- ===== src/Retirement/Lottery/Arrangement.antt =====
-- The swaps and the rounds of the draw in crates/naome-memory-core/src/retirement.rs.
use naome_memory.Base.{
  ℕ, zero, suc, ◌+◌, ◌-◌, ◌≤◌, ◌<◌, ◌≡◌, ◌≢◌, refl, ap, subst, ◌∙◌, List, [], ◌∷◌, none, some,
  arith, Option-cases, inl, inr, length, get_or, set, if◌then◌else◌, ◌==◌, some_inj, nat_ord,
}
use naome_memory.Retirement.Lottery.{uniform_below, swap, range, shuffle}
use naome_memory.Retirement.Lottery.Uniform.{uniform_below-lt, uniform_below_total, Accepts}

length-set : (xs : List ℕ) (i v : ℕ) → length (set xs i v) ≡ length xs
length-set [] i v = refl
length-set (x ∷ xs) zero v = refl
length-set (x ∷ xs) (suc i) v = ap suc (length-set xs i v)

get_or-set :
    (xs : List ℕ) (i v k : ℕ)
    → i < length xs
    → get_or (set xs i v) k 0 ≡ (if k == i then v else get_or xs k 0)
get_or-set [] i v k h = absurd (omega arith)
get_or-set (x ∷ xs) zero v zero h = ground arith
get_or-set (x ∷ xs) zero v (suc k) h = ground arith
get_or-set (x ∷ xs) (suc i) v zero h = ground arith
get_or-set (x ∷ xs) (suc i) v (suc k) h = ground (arith, get_or-set xs i v k)

length-swap : (xs : List ℕ) (i j : ℕ) → length (swap xs i j) ≡ length xs
unfolding swap
length-swap xs i j =
    length-set (set xs i (get_or xs j 0)) j (get_or xs i 0) ∙ length-set xs i (get_or xs j 0)

get_or-swap :
    (xs : List ℕ) (i j k : ℕ)
    → i < length xs
    → j < length xs
    → get_or (swap xs i j) k 0
      ≡ (if k == j then get_or xs i 0 else if k == i then get_or xs j 0 else get_or xs k 0)
unfolding swap
get_or-swap xs i j k hi hj =
    get_or-set (set xs i (get_or xs j 0)) j (get_or xs i 0) k
      (omega (arith, length-set xs i (get_or xs j 0)))
    ∙ ap (λ v. if k == j then get_or xs i 0 else v) (get_or-set xs i (get_or xs j 0) k hi)

-- The list holds `n` numbers below `n`, each once.
pub record IsArrangement (n : ℕ) (xs : List ℕ) : Type 0 where
  pub sized : length xs ≡ n
  pub below : (k : ℕ) → k < n → get_or xs k 0 < n
  pub once : (j k : ℕ) → j < n → k < n → get_or xs j 0 ≡ get_or xs k 0 → j ≡ k

swap-IsArrangement :
    (n : ℕ) (xs : List ℕ) (i j : ℕ)
    → i < n
    → j < n
    → IsArrangement n xs
    → IsArrangement n (swap xs i j)
swap-IsArrangement n xs i j hi hj a =
    let at = λ (k : ℕ). get_or-swap xs i j k (omega (arith, a.sized)) (omega (arith, a.sized)) in
    record {
      sized = length-swap xs i j ∙ a.sized;
      below = λ k h. ground (arith, at k, a.below i, a.below j, a.below k);
      once = λ l k hl hk e. ground (
        arith,
        at l,
        at k,
        a.once i j,
        a.once i k,
        a.once i l,
        a.once j k,
        a.once j l,
        a.once l k,
        a.once j i,
        a.once k i,
        a.once l i,
        a.once k j,
        a.once l j,
      );
    }

pub length-range : (count from : ℕ) → length (range count from) ≡ count
unfolding range
length-range zero from = refl
length-range (suc count) from = ap suc (length-range count (from + 1))

get_or-range : (count from k : ℕ) → k < count → get_or (range count from) k 0 ≡ from + k
unfolding range
get_or-range zero from k h = absurd (omega arith)
get_or-range (suc count) from zero h = omega arith
get_or-range (suc count) from (suc k) h = omega (arith, get_or-range count (from + 1) k)

pub range-IsArrangement : (n : ℕ) → IsArrangement n (range n 0)
range-IsArrangement n = record {
  sized = length-range n 0;
  below = λ k h. omega (arith, get_or-range n 0 k h);
  once = λ j k hj hk e. omega (arith, get_or-range n 0 j hj, get_or-range n 0 k hk);
}

pub none-ne-some : {ys : List ℕ} → none ≡ some ys → ⊥
none-ne-some e = cc

pub shuffle-IsArrangement :
    (fuel : ℕ) (stream : ℕ → ℕ) (n rounds index position : ℕ) (xs ys : List ℕ)
    → index + rounds ≤ n
    → IsArrangement n xs
    → shuffle fuel stream n rounds index position xs ≡ some ys
    → IsArrangement n ys
unfolding shuffle
shuffle-IsArrangement fuel stream n zero index position xs ys h a e =
    subst (IsArrangement n) (some_inj e) a
shuffle-IsArrangement fuel stream n (suc rounds) index position xs ys h a e =
    elim (Option-cases (uniform_below fuel stream position (n - index))) [
      | inl stuck ↦ absurd (none-ne-some (rw (stuck, shuffle) at e))
      | inr ((offset, position'), drawn) ↦
          let below =
            uniform_below-lt fuel stream position (n - index) offset position' (omega arith)
              drawn in
          shuffle-IsArrangement fuel stream n rounds (index + 1) position'
            (swap xs index (index + offset)) ys (omega arith)
            (swap-IsArrangement n xs index (index + offset) (omega arith) (omega arith) a)
            (rw (drawn, shuffle) at e)
    ]

-- With a stream that accepts within the fuel the rounds return.
pub shuffle_total :
    (fuel : ℕ) (stream : ℕ → ℕ) (n rounds index position : ℕ) (xs : List ℕ)
    → Accepts fuel n stream
    → shuffle fuel stream n rounds index position xs ≢ none
unfolding shuffle
shuffle_total fuel stream n zero index position xs accepts = λ e. cc
shuffle_total fuel stream n (suc rounds) index position xs accepts =
    elim (Option-cases (uniform_below fuel stream position (n - index))) [
      | inl stuck ↦
          absurd
            (uniform_below_total fuel n stream position (n - index) accepts (omega arith) stuck)
      | inr ((offset, position'), drawn) ↦
          rw (drawn, shuffle)
            (shuffle_total fuel stream n rounds (index + 1) position'
              (swap xs index (index + offset)) accepts)
    ]
