-- ===== src/Digests.antt =====
-- The digests and sizes that canonical bytes give: the methods of crates/naome-memory-core/src/model.rs
-- and policy.rs that encode, over the crate's externals.
pub mod Sizes
use naome_memory.Base.{
  ℕ, zero, suc, ◌+◌, String, List, [], ◌∷◌, ◌++◌, Option, length, checked_add, filterb, str_codes,
  map,
}
use naome_memory.Error.{Result, ok, err, ok_or, ◌>>=◌, canonical_encoding}
use naome_memory.Canonical.{canonical_binary}
use naome_memory.Policy.{Policy}
use naome_memory.Atom.{Digest32, AtomId, MemoryAtomBody, ArtifactRef}
use naome_memory.Externals.{Externals, hash_prefixed}

-- A hash domain: its text and a closing zero byte.
abbrev pub domain : String → List ℕ
domain text = str_codes text ++ 0 ∷ []

abbrev pub atom_hash_domain : List ℕ
atom_hash_domain = domain "naome-memory:atom:v1"

abbrev pub policy_hash_domain : List ℕ
policy_hash_domain = domain "naome-memory:policy:v1"

abbrev pub byte_total_overflowed : String
byte_total_overflowed = "artifact byte total overflowed u64"

-- `try_fold(0, checked_add)` from a running sum.
unfoldable pub checked_total : String → ℕ → List ℕ → Result ℕ
checked_total error sum [] = ok sum
checked_total error sum (n ∷ ns) =
    let rest = checked_total error (sum + n) ns in
    ok_or (checked_add sum n) (canonical_encoding error) >>= λ _. rest

-- The sizes of the artifacts that may be retained.
abbrev pub retained_sizes : MemoryAtomBody → List ℕ
retained_sizes body = map (λ a. a.size_bytes) (filterb (λ a. a.retention_allowed) body.artifacts)

module _ (ext : Externals) where
  unfoldable pub body_bytes : MemoryAtomBody → Result (List ℕ)
  body_bytes body = canonical_binary (ext.body_value body)

  -- `AtomId::from_body`, `MemoryAtomBodyV1::atom_id`
  unfoldable pub atom_id : MemoryAtomBody → Result AtomId
  unfolding body_bytes hash_prefixed
  atom_id body = do bytes ← body_bytes body; ok (hash_prefixed ext atom_hash_domain bytes)

  -- `MemoryAtomBodyV1::encoded_size_bytes`
  unfoldable pub encoded_size_bytes : MemoryAtomBody → Result ℕ
  unfolding body_bytes
  encoded_size_bytes body = do bytes ← body_bytes body; ok (length bytes)

  -- `MemoryAtomBodyV1::exact_package_bytes`
  unfoldable pub exact_package_bytes : MemoryAtomBody → Result ℕ
  unfolding encoded_size_bytes checked_total
  exact_package_bytes body = do
    artifact_bytes ← checked_total byte_total_overflowed 0 (retained_sizes body)
    size ← encoded_size_bytes body
    ok_or (checked_add size artifact_bytes)
        (canonical_encoding "exact package byte total overflowed u64")

  -- `PolicyV1::digest`
  unfoldable pub policy_digest : Policy → Result Digest32
  unfolding hash_prefixed
  policy_digest policy = do
    bytes ← canonical_binary (ext.policy_value policy)
    ok (hash_prefixed ext policy_hash_domain bytes)
