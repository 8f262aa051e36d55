-- ===== src/Digests/Sizes.antt =====
-- The byte totals of crates/naome-memory-core/src/model.rs as sums.
use naome_memory.Base.{
  ℕ, ◌+◌, ◌≤◌, ◌<◌, ◌≡◌, String, List, [], ◌∷◌, arith, u64_mod, ltb, if◌then◌else◌,
}
use naome_memory.Error.{ok, err, canonical_encoding, >>=-eq-ok}
use naome_memory.Atom.{MemoryAtomBody}
use naome_memory.Externals.{Externals}
use naome_memory.Digests.{checked_total, retained_sizes, encoded_size_bytes, exact_package_bytes}

abbrev pub sum : List ℕ → ℕ
sum [] = 0
sum (n ∷ ns) = n + sum ns

pub checked_total-eq-sum :
    (error : String) (acc : ℕ) (ns : List ℕ) {n : ℕ}
    → checked_total error acc ns ≡ ok n
    → n ≡ acc + sum ns
unfolding checked_total
checked_total-eq-sum error acc [] h = ground arith
checked_total-eq-sum error acc (x ∷ xs) {n} h =
    ground (arith, checked_total-eq-sum error (acc + x) xs {n = n})

-- A total below 2^64 is returned.
pub checked_total-of_lt :
    (error : String) (acc : ℕ) (ns : List ℕ)
    → acc + sum ns < u64_mod
    → checked_total error acc ns ≡ ok (acc + sum ns)
unfolding checked_total
checked_total-of_lt error acc [] h = ground arith
checked_total-of_lt error acc (x ∷ xs) h = ground (arith, checked_total-of_lt error (acc + x) xs)

-- A total of 2^64 or more is refused, if the running sum fits.
pub checked_total-overflow :
    (error : String) (acc : ℕ) (ns : List ℕ)
    → acc < u64_mod
    → u64_mod ≤ acc + sum ns
    → checked_total error acc ns ≡ err (canonical_encoding error)
unfolding checked_total
checked_total-overflow error acc [] h k = absurd (omega arith)
checked_total-overflow error acc (x ∷ xs) h k =
    ground (arith, checked_total-overflow error (acc + x) xs)

-- From a running sum that fits in 64 bits, a total below 2^64 is returned, and any other is the error.
pub checked_total_lem :
    (error : String) (acc : ℕ) (ns : List ℕ)
    → acc < u64_mod
    → checked_total error acc ns
      ≡ (if ltb (acc + sum ns) u64_mod then ok (acc + sum ns) else err (canonical_encoding error))
checked_total_lem error acc ns h =
    ground (arith, checked_total-of_lt error acc ns, checked_total-overflow error acc ns h)

module _ (ext : Externals) where
  -- The size of an exact package is the size of the body and of its retained artifacts.
  pub exact_package_bytes-eq-sum :
      (body : MemoryAtomBody) {size bytes : ℕ}
      → encoded_size_bytes ext body ≡ ok size
      → exact_package_bytes ext body ≡ ok bytes
      → bytes ≡ size + sum (retained_sizes body)
  unfolding exact_package_bytes
  exact_package_bytes-eq-sum body s h =
      let (artifacts, a, rest) = >>=-eq-ok (checked_total _ 0 (retained_sizes body)) _ h in
      let total = checked_total-eq-sum _ 0 (retained_sizes body) a in
      let (size', s', added) = >>=-eq-ok (encoded_size_bytes ext body) _ rest in ground arith
