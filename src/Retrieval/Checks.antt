-- ===== src/Retrieval/Checks.antt =====
-- crates/naome-memory-core/src/retrieval.rs: what a query and its candidates must satisfy.
use naome_memory.Base.{
  ℕ, String, Bool, true, false, not, ◌&&◌, ◌||◌, List, [], ◌∷◌, ◌++◌, Option, none, some, ltb, leb,
  ◌==◌, str_eq, str_codes, anyb, allb, set_contains, nat_ord,
}
use naome_memory.Error.{
  Result, ok, reject_if, each, ◌>>=◌, ◌>>◌, duplicate_atom, invalid_retrieval_candidate,
  unknown_version, atom_digest_mismatch,
}
use naome_memory.Atom.{
  AtomId, MemoryAtomBody, MemoryKind, kind, RetentionTier, ContentStatus, IntegrityStatus,
  short_term, episodic_long_term, dual_long_term, semantic_long_term, header_only, present,
  forgotten, corrupt,
}
use naome_memory.Externals.{Externals}
use naome_memory.Digests.{atom_id}
use naome_memory.Retrieval.Types.{RetrievalQuery, RetrievalCandidate}

-- `char::is_whitespace`: Unicode's White_Space.
abbrev pub is_whitespace : ℕ → Bool
is_whitespace c =
    (leb 9 c && leb c 13)
    || (c == 32)
    || (c == 133)
    || (c == 160)
    || (c == 5760)
    || (leb 8192 c && leb c 8202)
    || (c == 8232)
    || (c == 8233)
    || (c == 8239)
    || (c == 8287)
    || (c == 12288)

-- `value.trim().is_empty()`
abbrev pub trims_to_nothing : String → Bool
trims_to_nothing value = allb is_whitespace (str_codes value)

unfoldable pub has_meaningful_query_input : RetrievalQuery → Bool
has_meaningful_query_input query =
    anyb (λ value. not (trims_to_nothing value))
      (query.terms ++ query.topic_keys ++ query.entity_ids)

-- The rest of `validate_unique`, after the identifiers that it has seen.
unfoldable pub unique_from : List AtomId → List RetrievalCandidate → Result (Unit {0})
unique_from seen [] = ok tt
unique_from seen (candidate ∷ candidates) =
    reject_if (set_contains candidate.atom_id seen) (duplicate_atom candidate.atom_id)
    >> unique_from (candidate.atom_id ∷ seen) candidates

unfoldable pub validate_unique : List RetrievalCandidate → Result (Unit {0})
unfolding unique_from
validate_unique candidates = unique_from [] candidates

abbrev pub validate_time : ℕ → RetrievalCandidate → Result (Unit {0})
validate_time as_of_us candidate = reject_if (ltb as_of_us candidate.body.interval.recorded_at_us) (
    invalid_retrieval_candidate candidate.atom_id
      "candidate recorded_at_us is later than query as_of_us")

unfoldable pub validate_candidate_times : List RetrievalCandidate → ℕ → Result (Unit {0})
unfolding each
validate_candidate_times candidates as_of_us = each (validate_time as_of_us) candidates

abbrev pub is_present : ContentStatus → Bool
is_present present = true
is_present forgotten = false
is_present corrupt = false

abbrev pub is_header_only : RetentionTier → Bool
is_header_only header_only = true
is_header_only _ = false

abbrev pub tier_matches_kind : MemoryKind → RetentionTier → Bool
tier_matches_kind MemoryKind.episode short_term = true
tier_matches_kind MemoryKind.episode semantic_long_term = false
tier_matches_kind MemoryKind.episode episodic_long_term = true
tier_matches_kind MemoryKind.episode dual_long_term = true
tier_matches_kind MemoryKind.episode header_only = false
tier_matches_kind MemoryKind.semantic short_term = false
tier_matches_kind MemoryKind.semantic semantic_long_term = true
tier_matches_kind MemoryKind.semantic episodic_long_term = false
tier_matches_kind MemoryKind.semantic dual_long_term = false
tier_matches_kind MemoryKind.semantic header_only = false

unfoldable pub validate_candidate : Externals → RetrievalCandidate → Result (Unit {0})
unfolding atom_id
validate_candidate ext candidate = do
  reject_if (not (str_eq candidate.body.contract_version "atom-v1"))
      (unknown_version candidate.body.contract_version)
  computed ← atom_id ext candidate.body
  reject_if (not (computed == candidate.atom_id)) (atom_digest_mismatch candidate.atom_id)
  reject_if
      (not (is_present candidate.state.content_status)
        || is_header_only candidate.state.retention_tier)
      (invalid_retrieval_candidate candidate.atom_id
        "retrieval requires a present body outside the header-only tier")
  reject_if (not (tier_matches_kind (kind candidate.body) candidate.state.retention_tier))
      (invalid_retrieval_candidate candidate.atom_id "memory kind and retention tier disagree")

abbrev pub same_repository : Option String → Option String → Bool
same_repository none none = true
same_repository none (some right) = false
same_repository (some left) none = false
same_repository (some left) (some right) = str_eq left right

unfoldable pub in_query_scope : RetrievalQuery → MemoryAtomBody → Bool
in_query_scope query body =
    str_eq body.scope.memory_space_id query.memory_space_id
    && (query.memory_space_wide || same_repository body.scope.repository_id query.repository_id)

abbrev pub is_complete : IntegrityStatus → Bool
is_complete IntegrityStatus.complete = true
is_complete _ = false
