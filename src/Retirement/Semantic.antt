-- ===== src/Retirement/Semantic.antt =====
-- crates/naome-memory-core/src/retirement.rs: `build_semantic_body`, the body that consolidates a cluster.
use naome_memory.Base.{
  ℕ, zero, suc, ◌/◌, ◌%◌, String, Bool, true, false, List, [], ◌∷◌, none, map, min, max, length,
  leb, ltb, get_or, filter_map, sort_by, if◌then◌else◌,
}
use Prim.Native.String
use mathlib.Core.List.{flatten}
use naome_memory.Error.{Result, ok, err, ok_or, traverse, ◌>>=◌, canonical_encoding}
use naome_memory.Policy.{Policy}
use naome_memory.Atom.{
  Digest32, AtomId, MemoryAtomBody, RetirementCandidate, ConsolidationScore, MemoryPayload,
  checkpoint, semantic_allowed, derived_from,
}
use naome_memory.Externals.{Externals}
use naome_memory.Digests.{atom_id}
use naome_memory.Retirement.Types.{RetirementSnapshot}
use naome_memory.Retirement.Similarity.{body_at}
use naome_memory.Retirement.Consensus.{
  consensus_required, consensus_optional, consensus_body_strings, consensus_set, consensus_map,
}

-- The decimal text of a u64, which has at most 20 digits.
abbrev pub digit : ℕ → String
digit d = get_or ("0" ∷ "1" ∷ "2" ∷ "3" ∷ "4" ∷ "5" ∷ "6" ∷ "7" ∷ "8" ∷ "9" ∷ []) d ""

unfoldable pub decimal_from : ℕ → ℕ → String
decimal_from zero n = ""
decimal_from (suc fuel) n =
    let rest = decimal_from fuel (n / 10) in
    if ltb n 10 then digit n else String.◌++◌ rest (digit (n % 10))

unfoldable pub decimal : ℕ → String
unfolding decimal_from
decimal n = decimal_from 20 n

abbrev pub least : ℕ → List ℕ → ℕ
least n [] = n
least n (m ∷ ms) = least (min n m) ms

abbrev pub greatest : ℕ → List ℕ → ℕ
greatest n [] = n
greatest n (m ∷ ms) = greatest (max n m) ms

-- `iter().min().unwrap_or(default)`, and with `max()`
abbrev pub least_or : ℕ → List ℕ → ℕ
least_or default [] = default
least_or default (n ∷ ns) = least n ns

abbrev pub greatest_or : ℕ → List ℕ → ℕ
greatest_or default [] = default
greatest_or default (n ∷ ns) = greatest n ns

abbrev pub id_or_default : Result AtomId → AtomId
id_or_default (ok id) = id
id_or_default (err _) = 0

module _ (ext : Externals) where
  abbrev pub by_body_id : MemoryAtomBody → MemoryAtomBody → Bool
  unfolding atom_id
  by_body_id left right = leb (id_or_default (atom_id ext left)) (id_or_default (atom_id ext right))

  -- The body of a cluster, from its bodies in the order of their identifiers, and these.
  unfoldable pub consolidate :
      ConsolidationScore
      → RetirementSnapshot
      → Digest32
      → Policy
      → List MemoryAtomBody
      → List AtomId
      → MemoryAtomBody
  unfolding consensus_required consensus_optional consensus_body_strings consensus_set consensus_map
      decimal flatten
  consolidate score snapshot policy_digest policy bodies source_ids =
      let required = consensus_required (length bodies) policy in
      record {
        contract_version = "atom-v1";
        scope = record {
          memory_space_id = snapshot.memory_space_id;
          repository_id =
              consensus_optional (filter_map (λ b. b.scope.repository_id) bodies) required;
          task_id = consensus_optional (filter_map (λ b. b.scope.task_id) bodies) required;
          agent_id = consensus_optional (filter_map (λ b. b.scope.agent_id) bodies) required;
          session_id = String.◌++◌ "semantic:" (decimal snapshot.cohort_day);
        };
        interval = record {
          started_at_us = least_or snapshot.as_of_us (map (λ b. b.interval.started_at_us) bodies);
          ended_at_us = greatest_or snapshot.as_of_us (map (λ b. b.interval.ended_at_us) bodies);
          recorded_at_us = snapshot.as_of_us;
        };
        trigger = "poc-v1-retirement";
        seal_reason = checkpoint;
        goal = consensus_optional (filter_map (λ b. b.goal) bodies) required;
        plan = consensus_body_strings bodies required (λ b. b.plan);
        internal_state_before = consensus_map bodies required false;
        internal_state_after = consensus_map bodies required true;
        observations = [];
        interpretations = [];
        beliefs = [];
        decisions = [];
        rejected_alternatives = [];
        actions = [];
        outcome = none;
        feedback = [];
        formation_signals = record {
          utility = score.utility;
          salience = score.salience;
          novelty = score.novelty;
          uncertainty = score.uncertainty;
        };
        topic_keys = consensus_set (flatten (map (λ b. b.topic_keys) bodies)) required;
        entity_ids = consensus_set (flatten (map (λ b. b.entity_ids) bodies)) required;
        outcome_class = consensus_optional (filter_map (λ b. b.outcome_class) bodies) required;
        goal_key = consensus_optional (filter_map (λ b. b.goal_key) bodies) required;
        provenance = record {
          producer = "naome-memory-core/plan_retirement";
          source_event_digests = source_ids;
          policy_digest = policy_digest;
        };
        relations = map (λ source. record { kind = derived_from; target = source }) source_ids;
        artifacts = [];
        retention_permission = semantic_allowed;
        payload = MemoryPayload.semantic (record {
          source_ids = source_ids;
          source_body_digests = map (λ source. (source, source)) source_ids;
          score = score;
          consensus_numerator = policy.consensus_numerator;
          consensus_denominator = policy.consensus_denominator;
          supersedes = none;
        });
      }

  unfoldable pub build_semantic_body :
      List RetirementCandidate
      → List ℕ
      → ConsolidationScore
      → RetirementSnapshot
      → Digest32
      → Policy
      → Result MemoryAtomBody
  unfolding consolidate traverse sort_by atom_id
  build_semantic_body candidates cluster score snapshot policy_digest policy = do
    found ←
        traverse
          (λ i.
            ok_or (body_at candidates i) (canonical_encoding "semantic cluster contains no body"))
          cluster
    source_ids ← traverse (atom_id ext) (sort_by by_body_id found)
    ok (consolidate score snapshot policy_digest policy (sort_by by_body_id found) source_ids)
