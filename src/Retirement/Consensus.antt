-- ===== src/Retirement/Consensus.antt =====
-- crates/naome-memory-core/src/retirement.rs: the fields on which enough of the sources agree.
pub mod Support
use naome_memory.Base.{
  ℕ, zero, suc, ◌+◌, ◌*◌, String, Bool, true, false, not, List, [], ◌∷◌, ◌++◌, Option, none, some,
  map, min, leb, filterb, if◌then◌else◌, str_empty, set_of, string_ord, pair_ord, Ord, div_ceil,
  u64_max,
}
use Prim.Native.Nat.Ordering.{lt, eq, gt}
use mathlib.Core.List.{flatten}
use naome_memory.Policy.{Policy}
use naome_memory.Atom.{MemoryAtomBody}

unfoldable pub consensus_required : ℕ → Policy → ℕ
consensus_required count policy =
    min (div_ceil (count * policy.consensus_numerator) policy.consensus_denominator) u64_max

module _ {K : Type 0} ⦃o : Ord K⦄ where
  -- `*counts.entry(key).or_default() += 1`
  unfoldable pub bump : K → List (K × ℕ) → List (K × ℕ)
  bump key [] = (key, 1) ∷ []
  bump key ((k, n) ∷ counts) = elim (o.cmp key k) [
    | lt ↦ (key, 1) ∷ (k, n) ∷ counts
    | eq ↦ (k, n + 1) ∷ counts
    | gt ↦ (k, n) ∷ bump key counts
  ]

  unfoldable pub tally_from : List (K × ℕ) → List K → List (K × ℕ)
  unfolding bump
  tally_from counts [] = counts
  tally_from counts (key ∷ keys) = tally_from (bump key counts) keys

  -- The keys that were counted at least so often, in their order.
  unfoldable pub agreed : List K → ℕ → List K
  unfolding tally_from
  agreed keys required = map (λ c. c.0) (filterb (λ c. leb required c.1) (tally_from [] keys))

abbrev pub not_empty : List String → List String
not_empty values = filterb (λ value. not (str_empty value)) values

abbrev pub first_of : List String → Option String
first_of [] = none
first_of (value ∷ values) = some value

unfoldable pub consensus_strings : List String → ℕ → List String
unfolding agreed
consensus_strings values required = agreed (not_empty values) required

-- `find_map` stops at the first of what `consensus_strings` collects.
unfoldable pub consensus_optional : List String → ℕ → Option String
unfolding agreed
consensus_optional values required = first_of (agreed (not_empty values) required)

unfoldable pub consensus_body_strings :
    List MemoryAtomBody → ℕ → (MemoryAtomBody → List String) → List String
unfolding agreed set_of flatten
consensus_body_strings bodies required values =
    agreed (flatten (map (λ b. set_of (not_empty (values b))) bodies)) required

unfoldable pub consensus_set : List String → ℕ → List String
unfolding consensus_strings set_of
consensus_set values required = set_of (consensus_strings values required)

-- `BTreeMap::insert`, which replaces the value of a key.
unfoldable pub map_insert : String → String → List (String × String) → List (String × String)
map_insert key value [] = (key, value) ∷ []
map_insert key value ((k, v) ∷ entries) = elim (string_ord.cmp key k) [
  | lt ↦ (key, value) ∷ (k, v) ∷ entries
  | eq ↦ (k, value) ∷ entries
  | gt ↦ (k, v) ∷ map_insert key value entries
]

-- `collect` into a map, from the entries so far.
unfoldable pub collect_map :
    List (String × String) → List (String × String) → List (String × String)
unfolding map_insert
collect_map entries [] = entries
collect_map entries ((key, value) ∷ pairs) = collect_map (map_insert key value entries) pairs

unfoldable pub consensus_map : List MemoryAtomBody → ℕ → Bool → List (String × String)
unfolding agreed collect_map flatten
consensus_map bodies required after = collect_map [] (
    agreed
      (flatten
        (map (λ b. if after then b.internal_state_after else b.internal_state_before) bodies))
      required)
