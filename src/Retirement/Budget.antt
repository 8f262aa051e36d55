-- ===== src/Retirement/Budget.antt =====
-- crates/naome-memory-core/src/retirement.rs: the semantic candidates that the count and byte budgets
-- admit, in the order of their rank.
pub mod Bounds
use naome_memory.Base.{
  ℕ, suc, ◌+◌, List, [], ◌∷◌, ◌++◌, Bool, true, false, Option, none, some, ltb, leb, length,
  checked_add, if◌then◌else◌,
}
use naome_memory.Error.{
  Result, ok, err, ok_or, reject_if, ◌>>=◌, canonical_encoding, cohort_too_large,
  episodic_budget_exceeded,
}
use naome_memory.Policy.{Policy}
use naome_memory.Atom.{AtomId, ConsolidationScore, MemoryPayload}
use naome_memory.Retirement.Types.{
  PlannedSemanticAtom, SemanticCandidateDisposition, selected, skipped_atom_hard_limit,
  skipped_count_budget, skipped_byte_budget, SemanticCandidateDecision,
}

unfoldable pub semantic_candidate_disposition :
    ℕ → ℕ → ℕ → ℕ → Policy → Result (SemanticCandidateDisposition × ℕ)
semantic_candidate_disposition candidate_bytes selected_count count_budget selected_bytes policy =
    let admitted = do
      new_total ←
          ok_or (checked_add selected_bytes candidate_bytes)
            (canonical_encoding "semantic byte total overflowed u64")
      ok (
          if ltb policy.semantic_body_budget_bytes new_total
          then (skipped_byte_budget, selected_bytes)
          else (selected, new_total))
    in if ltb policy.atom_hard_max_bytes candidate_bytes
      then ok (skipped_atom_hard_limit, selected_bytes)
      else if leb count_budget selected_count
      then ok (skipped_count_budget, selected_bytes)
      else admitted

abbrev pub payload_sources : MemoryPayload → Result (List AtomId)
payload_sources (MemoryPayload.semantic payload) = ok payload.source_ids
payload_sources (MemoryPayload.episode _) =
    err (canonical_encoding "planned semantic candidate has episode payload")

abbrev pub is_selected : SemanticCandidateDisposition → Bool
is_selected selected = true
is_selected _ = false

-- What the loop over the ranked candidates has decided so far.
pub record Selection : Type 0 where
  pub atoms : List PlannedSemanticAtom
  pub decisions : List SemanticCandidateDecision
  pub bytes : ℕ

abbrev pub decide_candidate :
    Selection
    → ConsolidationScore × PlannedSemanticAtom
    → List AtomId
    → SemanticCandidateDisposition × ℕ
    → Selection
decide_candidate sofar (score, semantic) source_ids (disposition, bytes) = record {
  atoms = if is_selected disposition then sofar.atoms ++ semantic ∷ [] else sofar.atoms;
  decisions =
      sofar.decisions
      ++ record {
        atom_id = semantic.atom_id;
        source_ids = source_ids;
        score = score;
        canonical_size_bytes = semantic.canonical_size_bytes;
        disposition = disposition;
      }
        ∷ [];
  bytes = bytes;
}

module _ (policy : Policy) (count_budget : ℕ) where
  -- One turn of the loop.
  unfoldable pub consider : Selection → ConsolidationScore × PlannedSemanticAtom → Result Selection
  unfolding semantic_candidate_disposition
  consider sofar candidate = do
    source_ids ← payload_sources candidate.1.body.payload
    disposed ←
        semantic_candidate_disposition candidate.1.canonical_size_bytes (length sofar.atoms)
          count_budget sofar.bytes policy
    ok (decide_candidate sofar candidate source_ids disposed)

  unfoldable pub select_from :
      Selection → List (ConsolidationScore × PlannedSemanticAtom) → Result Selection
  unfolding consider
  select_from sofar [] = ok sofar
  select_from sofar (candidate ∷ candidates) =
      consider sofar candidate >>= λ next. select_from next candidates

abbrev pub nothing_selected : Selection
nothing_selected = record { atoms = []; decisions = []; bytes = 0 }

unfoldable pub validate_cohort_size : ℕ → Policy → Result (Unit {0})
validate_cohort_size atom_count policy =
    reject_if (ltb policy.max_cohort_atoms atom_count)
      (cohort_too_large atom_count policy.max_cohort_atoms)

unfoldable pub validate_episodic_budget : ℕ → Policy → Result (Unit {0})
validate_episodic_budget episodic_winner_bytes policy =
    reject_if (ltb policy.episodic_pin_budget_bytes episodic_winner_bytes)
      (episodic_budget_exceeded episodic_winner_bytes policy.episodic_pin_budget_bytes)
