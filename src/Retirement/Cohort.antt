-- ===== src/Retirement/Cohort.antt =====
-- crates/naome-memory-core/src/retirement.rs: what a snapshot and its candidates must satisfy, and the
-- digest of the set that they are.
pub mod Valid
use naome_memory.Base.{
  ℕ, ◌+◌, ◌*◌, ◌/◌, String, Bool, true, false, not, ◌&&◌, ◌||◌, List, [], ◌∷◌, Option, none, some,
  map, length, ltb, leb, ◌==◌, if◌then◌else◌, str_eq, str_empty, is_nil, is_some, checked_add,
  checked_mul, sort_by, filterb,
}
use naome_memory.Error.{
  Result, ok, err, ok_or, reject_if, ◌>>=◌, ◌>>◌, duplicate_atom, invalid_retirement_candidate,
  atom_digest_mismatch, memory_space_mismatch, canonical_encoding, unknown_version, empty_field,
  empty_retirement_cohort, retirement_cohort_not_closed, invalid_atom_body,
}
use naome_memory.Canonical.{canonical_binary}
use naome_memory.Policy.{Policy, validate_poc_v1}
use naome_memory.Atom.{
  Digest32, AtomId, MemoryAtomBody, MemoryPayload, RetirementCandidate, RetentionTier,
  ContentStatus, IntegrityStatus, short_term, present, complete,
}
use naome_memory.Externals.{Externals, hash_prefixed}
use naome_memory.Digests.{
  domain, atom_hash_domain, body_bytes, checked_total, retained_sizes, byte_total_overflowed,
}
use naome_memory.Validation.{validate_memory_atom_body}
use naome_memory.Retirement.Types.{
  RetirementSnapshot, RetirementInputCandidateRef, RetirementInputAuthority,
}
use naome_memory.Retirement.Budget.{validate_cohort_size}

abbrev pub microseconds_per_day : ℕ
microseconds_per_day = 86_400_000_000

abbrev pub is_short_term : RetentionTier → Bool
is_short_term short_term = true
is_short_term _ = false

abbrev pub is_present : ContentStatus → Bool
is_present present = true
is_present _ = false

abbrev pub is_complete : IntegrityStatus → Bool
is_complete complete = true
is_complete _ = false

abbrev pub rejected : RetirementCandidate → String → Bool → Result (Unit {0})
rejected candidate reason test =
    reject_if test (invalid_retirement_candidate candidate.atom_id reason)

abbrev pub is_episode_payload : MemoryPayload → Bool
is_episode_payload (MemoryPayload.episode _) = true
is_episode_payload (MemoryPayload.semantic _) = false

unfoldable pub validate_candidate_scope : MemoryAtomBody → String → Result (Unit {0})
validate_candidate_scope body memory_space_id =
    reject_if (not (str_eq body.scope.memory_space_id memory_space_id)) memory_space_mismatch

-- `previous == Some(candidate.atom_id)`
abbrev pub is_previous : Option AtomId → AtomId → Bool
is_previous none atom_id = false
is_previous (some previous) atom_id = previous == atom_id

module _ (ext : Externals) (snapshot : RetirementSnapshot) (policy : Policy) where
  -- The checks of a candidate's state and integrity; its expiry.
  unfoldable pub validate_lifecycle : RetirementCandidate → Result ℕ
  validate_lifecycle candidate = do
    rejected candidate "candidate is not an unretired present STM atom" (
        not (is_short_term candidate.state.retention_tier)
        || not (is_present candidate.state.content_status)
        || is_some candidate.state.retirement_run_id
        || is_some candidate.state.superseded_by)
    expires_at_us ←
        ok_or candidate.state.expires_at_us
          (invalid_retirement_candidate candidate.atom_id "STM candidate has no expiry")
    rejected candidate "candidate expiry does not belong to the requested UTC cohort day"
        (not (expires_at_us / microseconds_per_day == snapshot.cohort_day))
    rejected candidate "candidate integrity is incomplete" (not (is_complete candidate.integrity))
    reject_if (not (candidate.body_digest == candidate.atom_id))
        (atom_digest_mismatch candidate.atom_id)
    ok expires_at_us

  -- The checks of a candidate's body against its expiry, its identifier and its size.
  unfoldable pub validate_content : RetirementCandidate → MemoryAtomBody → ℕ → Result (Unit {0})
  unfolding validate_memory_atom_body validate_candidate_scope body_bytes checked_total
      hash_prefixed
  validate_content candidate body expires_at_us = do
    validate_memory_atom_body ext policy body
    expected_expires_at_us ←
        ok_or (checked_add body.interval.recorded_at_us policy.stm_horizon_us) (
          invalid_retirement_candidate candidate.atom_id
            "recorded time plus STM horizon overflows u64")
    rejected candidate "STM expiry does not equal recorded time plus policy horizon"
        (not (expires_at_us == expected_expires_at_us))
    rejected candidate "STM retirement cohort contains a non-episode atom"
        (not (is_episode_payload body.payload))
    validate_candidate_scope body snapshot.memory_space_id
    canonical_body ← body_bytes ext body
    artifact_bytes ← checked_total byte_total_overflowed 0 (retained_sizes body)
    exact_package_bytes ←
        ok_or (checked_add (length canonical_body) artifact_bytes)
          (canonical_encoding "exact package byte total overflowed u64")
    reject_if
        (not (exact_package_bytes == candidate.exact_package_bytes)
          || not (hash_prefixed ext atom_hash_domain canonical_body == candidate.atom_id))
        (atom_digest_mismatch candidate.atom_id)

  -- One turn of the loop of `validate_candidates`.
  unfoldable pub validate_retiring : Option AtomId → RetirementCandidate → Result (Unit {0})
  unfolding validate_lifecycle validate_content
  validate_retiring previous candidate = do
    reject_if (is_previous previous candidate.atom_id) (duplicate_atom candidate.atom_id)
    expires_at_us ← validate_lifecycle candidate
    body ← ok_or candidate.body (atom_digest_mismatch candidate.atom_id)
    validate_content candidate body expires_at_us

  -- The loop, after the identifier of the candidate before.
  unfoldable pub validate_from : Option AtomId → List RetirementCandidate → Result (Unit {0})
  unfolding validate_retiring
  validate_from previous [] = ok tt
  validate_from previous (candidate ∷ candidates) = do
    validate_retiring previous candidate
    validate_from (some candidate.atom_id) candidates

  unfoldable pub validate_candidates : List RetirementCandidate → Result (Unit {0})
  unfolding validate_from
  validate_candidates = validate_from none

  -- The checks of the snapshot, before its candidates.
  unfoldable pub validate_snapshot : Result (Unit {0})
  unfolding validate_poc_v1 validate_cohort_size
  validate_snapshot = do
    validate_poc_v1 policy
    reject_if (not (str_eq snapshot.contract_version "retirement-snapshot-v1"))
        (unknown_version snapshot.contract_version)
    reject_if (str_empty snapshot.memory_space_id) (empty_field "memory_space_id")
    validate_cohort_size (length snapshot.atoms) policy
    reject_if (is_nil snapshot.atoms) empty_retirement_cohort
    day ←
        ok_or (checked_add snapshot.cohort_day 1)
          (invalid_atom_body "retirement cohort day upper boundary overflows u64")
    cohort_end_us ←
        ok_or (checked_mul day microseconds_per_day)
          (invalid_atom_body "retirement cohort day upper boundary overflows u64")
    reject_if (ltb snapshot.as_of_us cohort_end_us)
        (retirement_cohort_not_closed snapshot.as_of_us cohort_end_us)

-- The order of the identifiers.
abbrev pub by_atom_id : RetirementCandidate → RetirementCandidate → Bool
by_atom_id left right = leb left.atom_id right.atom_id

abbrev pub candidate_ref : RetirementCandidate → RetirementInputCandidateRef
candidate_ref candidate = record {
  atom_id = candidate.atom_id;
  body_digest = candidate.body_digest;
  state = candidate.state;
  integrity = candidate.integrity;
  exact_package_bytes = candidate.exact_package_bytes;
}

abbrev pub input_authority : RetirementSnapshot → RetirementInputAuthority
unfolding sort_by
input_authority snapshot = record {
  contract_version = snapshot.contract_version;
  memory_space_id = snapshot.memory_space_id;
  cohort_day = snapshot.cohort_day;
  as_of_us = snapshot.as_of_us;
  atoms = map candidate_ref (sort_by by_atom_id snapshot.atoms);
}

unfoldable pub retirement_input_digest : Externals → RetirementSnapshot → Result Digest32
unfolding hash_prefixed sort_by
retirement_input_digest ext snapshot = do
  bytes ← canonical_binary (ext.input_value (input_authority snapshot))
  ok (hash_prefixed ext (domain "naome-memory:retirement-input:v1") bytes)
