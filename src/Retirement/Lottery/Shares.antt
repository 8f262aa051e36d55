-- ===== src/Retirement/Lottery/Shares.antt =====
-- The rejection loop of crates/naome-memory-core/src/retirement.rs gives each value as often as any other.
use naome_memory.Base.{
  ℕ, zero, suc, ◌+◌, ◌*◌, ◌%◌, ◌≤◌, ◌<◌, ◌≡◌, refl, sym, ap, ◌∙◌, subst, Bool, false, ◌&&◌, Option,
  none, some, arith, leb, ltb, ◌==◌, if◌then◌else◌, u64_mod,
}
use native.Mathlib.Nat.{mod-eq_of_lt, mul-add-mod_self_right, suc-mul}
use naome_memory.Retirement.Lottery.{threshold, draw, uniform_below}
use naome_memory.Retirement.Lottery.Uniform.{threshold-lt, threshold_runs}

abbrev gives : Option (ℕ × ℕ) → ℕ → Bool
gives none value = false
gives (some (drawn, next)) value = drawn == value

-- The number of the outputs below a limit that, alone, give a value.
unfoldable pub share : ℕ → ℕ → ℕ → ℕ
share zero bound value = 0
share (suc output) bound value =
    let fewer = share output bound value in
    if gives (uniform_below 1 (λ position. output) 0 bound) value then suc fewer else fewer

-- The numbers below a limit that leave a remainder.
unfoldable residues : ℕ → ℕ → ℕ → ℕ
residues zero bound value = 0
residues (suc n) bound value =
    let fewer = residues n bound value in if n % bound == value then suc fewer else fewer

abbrev one : Bool → ℕ
one b = if b then 1 else 0

add_none : (n : ℕ) → n + 0 ≡ n
add_none n = omega arith

none_add : (n : ℕ) → 0 + n ≡ n
none_add n = omega arith

none_mul : (n : ℕ) → 0 * n ≡ 0
none_mul n = omega arith

residues-next :
    (n m bound value : ℕ)
    → m ≡ suc n
    → residues m bound value ≡ residues n bound value + one (n % bound == value)
unfolding residues
residues-next n m bound value e = ap (λ k. residues k bound value) e ∙ ground arith

residues-run :
    (runs bound value rest : ℕ)
    → value < bound
    → rest ≤ bound
    → residues (runs * bound + rest) bound value
      ≡ residues (runs * bound) bound value + one (ltb value rest)
unfolding residues
residues-run runs bound value zero small fits =
    ap (λ n. residues n bound value) (add_none (runs * bound)) ∙ ground arith
residues-run runs bound value (suc rest) small fits =
    let before = residues-run runs bound value rest small (omega arith) in
    let next =
      residues-next (runs * bound + rest) (runs * bound + suc rest) bound value (omega arith) in
    let left : (runs * bound + rest) % bound ≡ rest =
      mul-add-mod_self_right runs bound rest ∙ mod-eq_of_lt (omega arith) in
    ground (arith, before, next, left)

next_run : (runs bound : ℕ) → suc runs * bound ≡ runs * bound + bound
next_run runs bound = suc-mul runs bound

residues-runs : (runs bound value : ℕ) → value < bound → residues (runs * bound) bound value ≡ runs
unfolding residues
residues-runs zero bound value small = ap (λ n. residues n bound value) (none_mul bound)
residues-runs (suc runs) bound value small =
    let whole = residues-run runs bound value bound small (omega arith) in
    let rest = residues-runs runs bound value small in
    ap (λ n. residues n bound value) (next_run runs bound) ∙ ground (arith, whole, rest)

share-step :
    (output bound value : ℕ)
    → 1 < bound
    → gives (uniform_below 1 (λ position. output) 0 bound) value
      ≡ (leb (threshold bound) output && output % bound == value)
unfolding uniform_below draw
share-step output bound value above = ground arith

share-next :
    (n m bound value : ℕ)
    → 1 < bound
    → m ≡ suc n
    → share m bound value
      ≡ share n bound value + one (leb (threshold bound) n && n % bound == value)
unfolding share
share-next n m bound value above e =
    ap (λ k. share k bound value) e ∙ ground (arith, share-step n bound value above)

share_rejected :
    (limit bound value : ℕ) → 1 < bound → limit ≤ threshold bound → share limit bound value ≡ 0
unfolding share
share_rejected zero bound value above below = refl
share_rejected (suc n) bound value above below =
    ground (arith, share-step n bound value above, share_rejected n bound value above)

-- Past the threshold, the outputs that give a value are those of its remainder.
share-residues :
    (count bound value : ℕ)
    → 1 < bound
    → share (count + threshold bound) bound value + residues (threshold bound) bound value
      ≡ residues (count + threshold bound) bound value
unfolding share residues
share-residues zero bound value above =
    let none_yet = share_rejected (threshold bound) bound value above (omega arith) in
    let shared = ap (λ n. share n bound value) (none_add (threshold bound)) in
    let left = ap (λ n. residues n bound value) (none_add (threshold bound)) in
    omega (arith, none_yet, shared, left)
share-residues (suc n) bound value above =
    let kept =
      share-next (n + threshold bound) (suc n + threshold bound) bound value above (omega arith) in
    let left =
      residues-next (n + threshold bound) (suc n + threshold bound) bound value (omega arith) in
    let rest = share-residues n bound value above in ground (arith, kept, left, rest)

zero_run : (bound rest : ℕ) → 0 * bound + rest ≡ rest
zero_run bound rest = omega arith

share-mul :
    (bound value : ℕ)
    → 1 < bound
    → bound ≤ u64_mod
    → value < bound
    → u64_mod ≡ share u64_mod bound value * bound + threshold bound
share-mul bound value above fits small =
    let (runs, whole) = threshold_runs bound (omega arith) fits in
    let below = threshold-lt bound (omega arith) in
    let kept =
      subst
        (λ n. share n bound value + residues (threshold bound) bound value ≡ residues n bound value)
        (sym whole) (share-residues (runs * bound) bound value above) in
    let all =
      ap (λ n. residues n bound value) whole
      ∙ residues-run runs bound value (threshold bound) small (omega arith) in
    let rejected =
      ap (λ n. residues n bound value) (sym (zero_run bound (threshold bound)))
      ∙ residues-run 0 bound value (threshold bound) small (omega arith) in
    let exact = residues-runs runs bound value small in
    let nothing = residues-runs 0 bound value small in
    let same : share u64_mod bound value ≡ runs = omega arith in
    subst (λ n. u64_mod ≡ n * bound + threshold bound) (sym same) whole

-- What the first output gives alone, or else what the rest gives.
abbrev pub or_else : Option (ℕ × ℕ) → ℕ → Option (ℕ × ℕ) → Option (ℕ × ℕ)
or_else none next rest = rest
or_else (some (value, _)) next rest = some (value, next)

-- For a bound from 2 to 2^64, a draw gives what its first output gives alone, and is behind it then, or
-- else what the outputs behind it give; and of the 2^64 outputs each value below the bound has an equal
-- share, of those that give it, with less than the bound that give none.
pub uniform_below-share :
    (fuel : ℕ) (stream : ℕ → ℕ) (position bound value : ℕ)
    → 1 < bound
    → bound ≤ u64_mod
    → value < bound
    → (uniform_below (suc fuel) stream position bound
        ≡ or_else
            (uniform_below 1 (λ p. stream position) 0 bound)
            (position + 1)
            (uniform_below fuel stream (position + 1) bound))
      × (u64_mod ≡ share u64_mod bound value * bound + threshold bound)
      × (threshold bound < bound)
unfolding uniform_below draw
uniform_below-share fuel stream position bound value above fits small =
    (ground arith, share-mul bound value above fits small, threshold-lt bound (omega arith))
