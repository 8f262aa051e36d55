-- ===== src/Retirement/Plan.antt =====
-- crates/naome-memory-core/src/retirement.rs: `plan_retirement`, cut into the semantic candidates, the
-- episodic lottery, the decisions and their composition.
--
-- A result `ok none` says that a rejection loop of the lottery has used up the fuel.
pub mod Draw
pub mod Decisions
pub mod Total
use naome_memory.Base.{
  ℕ, zero, suc, ◌+◌, String, Bool, true, false, not, ◌&&◌, ◌||◌, List, [], ◌∷◌, ◌++◌, Option, none,
  some, map, min, length, ltb, leb, ◌==◌, if◌then◌else◌, filterb, filter_map, get_elem?, sort_by,
  set_contains, nat_ord, is_nil,
}
use mathlib.Core.List.{flatten}
use naome_memory.Error.{Result, ok, err, ◌>>=◌, ◌>>◌, canonical_encoding}
use naome_memory.Canonical.{canonical_binary}
use naome_memory.Fixed.{ceil_count}
use naome_memory.Policy.{Policy}
use naome_memory.Atom.{
  Digest32, AtomId, Seed32, MemoryAtomBody, MemoryPayload, RetirementCandidate, ConsolidationScore,
  RetentionPermission, transient_only, semantic_allowed, semantic_and_exact_allowed,
  retained_artifact_digests,
}
use naome_memory.Externals.{Externals, hash_prefixed}
use naome_memory.Digests.{domain, atom_id, encoded_size_bytes, policy_digest, checked_total}
use naome_memory.Validation.{validate_memory_atom_body}
use naome_memory.Retirement.Types.{
  RetirementSnapshot, PlannedSemanticAtom, RetirementDecision, RetirementPlan,
}
use naome_memory.Retirement.Lottery.{partial_fisher_yates, range}
use naome_memory.Retirement.Similarity.{body_at, complete_link_clusters}
use naome_memory.Retirement.Score.{bodies_of, session_count, consolidation_score}
use naome_memory.Retirement.Semantic.{build_semantic_body}
use naome_memory.Retirement.Budget.{
  Selection, select_from, nothing_selected, validate_episodic_budget,
}
use naome_memory.Retirement.Cohort.{
  validate_snapshot, validate_candidates, retirement_input_digest, by_atom_id, is_episode_payload,
}
use naome_memory.Retirement.PostState.{projected_post_state, post_state_digest}

abbrev pub is_consolidable : RetentionPermission → Bool
is_consolidable transient_only = false
is_consolidable semantic_allowed = true
is_consolidable semantic_and_exact_allowed = true

abbrev pub is_exact : RetentionPermission → Bool
is_exact transient_only = false
is_exact semantic_allowed = false
is_exact semantic_and_exact_allowed = true

abbrev pub body_permits : (RetentionPermission → Bool) → Option MemoryAtomBody → Bool
body_permits permits none = false
body_permits permits (some body) = permits body.retention_permission

-- The indices of the candidates whose permission passes a test.
unfoldable pub permitted_indices : (RetentionPermission → Bool) → List RetirementCandidate → List ℕ
unfolding range
permitted_indices permits candidates =
    filterb (λ i. body_permits permits (body_at candidates i)) (range (length candidates) 0)

abbrev pub scores_before :
    ConsolidationScore × PlannedSemanticAtom → ConsolidationScore × PlannedSemanticAtom → Bool
scores_before left right =
    ltb right.0.total left.0.total
    || (left.0.total == right.0.total && leb left.1.atom_id right.1.atom_id)

module _ (ext : Externals) (snapshot : RetirementSnapshot) (policy : Policy)
    (digest : Digest32) where
  -- The semantic atom of a cluster whose score passed.
  unfoldable pub plan_semantic :
      List RetirementCandidate
      → List ℕ
      → ConsolidationScore
      → Result (ConsolidationScore × PlannedSemanticAtom)
  unfolding build_semantic_body validate_memory_atom_body encoded_size_bytes atom_id
  plan_semantic candidates cluster score = do
    body ← build_semantic_body ext candidates cluster score snapshot digest policy
    validate_memory_atom_body ext policy body
    size ← encoded_size_bytes ext body
    id ← atom_id ext body
    ok (score, record { atom_id = id; body_digest = id; canonical_size_bytes = size; body = body })

  -- Whether a cluster has the sources, the sessions and the score to be consolidated.
  unfoldable pub is_eligible : List RetirementCandidate → List ℕ → Bool
  unfolding session_count consolidation_score
  is_eligible candidates cluster =
      not (ltb (length cluster) policy.min_semantic_sources)
      && not (ltb (session_count (bodies_of candidates cluster)) policy.min_semantic_sessions)
      && leb policy.consolidation_threshold (consolidation_score policy candidates cluster).total

  -- The loop over the clusters.
  unfoldable pub semantic_candidates_of :
      List RetirementCandidate
      → List (List ℕ)
      → Result (List (ConsolidationScore × PlannedSemanticAtom))
  unfolding plan_semantic is_eligible consolidation_score
  semantic_candidates_of candidates [] = ok []
  semantic_candidates_of candidates (cluster ∷ clusters) =
      let rest = semantic_candidates_of candidates clusters in
      if is_eligible candidates cluster
      then (plan_semantic candidates cluster (consolidation_score policy candidates cluster)
          >>= λ planned. rest >>= λ others. ok (planned ∷ others))
      else rest

  unfoldable pub select_semantic : List RetirementCandidate → Result Selection
  unfolding semantic_candidates_of permitted_indices complete_link_clusters sort_by select_from
      ceil_count
  select_semantic candidates = do
    planned ←
        semantic_candidates_of candidates
          (complete_link_clusters policy candidates (permitted_indices is_consolidable candidates))
    select_from policy
        (min (ceil_count policy.semantic_rate (length candidates)) policy.semantic_count_max)
        nothing_selected (sort_by scores_before planned)

-- The pairs of a source and a semantic atom that it went into, in the order of the atoms.
unfoldable pub semantic_sources : List PlannedSemanticAtom → Result (List (AtomId × AtomId))
semantic_sources [] = ok []
semantic_sources (semantic ∷ semantics) =
    let rest = semantic_sources semantics in
    elim semantic.body.payload [
      | MemoryPayload.episode _ ↦
          err (canonical_encoding "planned semantic atom has episode payload")
      | MemoryPayload.semantic payload ↦ rest >>= λ others.
          ok (map (λ source. (source, semantic.atom_id)) payload.source_ids ++ others)
    ]

abbrev pub retained_digests : Bool → Option MemoryAtomBody → List Digest32
unfolding retained_artifact_digests
retained_digests false body = []
retained_digests true none = []
retained_digests true (some body) = retained_artifact_digests body

abbrev pub has_episode : Option MemoryAtomBody → Bool
has_episode none = false
has_episode (some body) = is_episode_payload body.payload

-- The loop of the decisions; each takes the sources that it names out of the map.
unfoldable pub decide_all :
    List AtomId → List (AtomId × AtomId) → List RetirementCandidate → List RetirementDecision
unfolding retained_artifact_digests sort_by
decide_all winners sources [] = []
decide_all winners sources (candidate ∷ candidates) =
    let retained = set_contains candidate.atom_id winners in
    record {
      atom_id = candidate.atom_id;
      semantic_atom_ids =
          sort_by leb (map (λ p. p.1) (filterb (λ p. p.0 == candidate.atom_id) sources));
      exact_retained = retained;
      exact_artifact_digests = retained_digests retained candidate.body;
      forget_episode_body = has_episode candidate.body && not retained;
    }
    ∷ decide_all winners (filterb (λ p. not (p.0 == candidate.atom_id)) sources) candidates

-- The candidates at the drawn positions of the population.
unfoldable pub winners_at : List RetirementCandidate → List ℕ → List ℕ → List RetirementCandidate
winners_at candidates population positions =
    filter_map (get_elem? candidates) (filter_map (get_elem? population) positions)

-- The winners of the lottery: the size of the population, its digest, the number drawn for, and the
-- candidates that won, in the order of the draw.
pub record Lottery : Type 0 where
  pub population_count : ℕ
  pub population_digest : Digest32
  pub budget : ℕ
  pub winners : List RetirementCandidate
  pub bytes : ℕ

-- The identifiers of the winners, in their order.
abbrev pub winner_ids : Lottery → List AtomId
unfolding sort_by
winner_ids lottery = sort_by leb (map (λ c. c.atom_id) lottery.winners)

module _ (ext : Externals) (fuel : ℕ) (policy : Policy) (seed : Seed32) where
  -- The end of the lottery, with the positions drawn.
  unfoldable pub settle :
      List RetirementCandidate → List ℕ → Digest32 → ℕ → Option (List ℕ) → Result (Option Lottery)
  unfolding winners_at checked_total validate_episodic_budget
  settle candidates population population_digest budget none = ok none
  settle candidates population population_digest budget (some positions) = do
    bytes ←
        checked_total "episodic byte total overflowed u64" 0
          (map (λ c. c.exact_package_bytes) (winners_at candidates population positions))
    validate_episodic_budget bytes policy
    ok (
        some (record {
          population_count = length population;
          population_digest = population_digest;
          budget = budget;
          winners = winners_at candidates population positions;
          bytes = bytes;
        }))

  unfoldable pub episodic_budget : ℕ → ℕ
  unfolding ceil_count
  episodic_budget population_count =
      min (ceil_count policy.episodic_rate population_count) policy.episodic_count_max

  unfoldable pub draw_episodes : List RetirementCandidate → Result (Option Lottery)
  unfolding permitted_indices settle episodic_budget partial_fisher_yates hash_prefixed
  draw_episodes candidates =
      let population = permitted_indices is_exact candidates in
      let evidence =
        map (λ c. (c.atom_id, c.body_digest, c.exact_package_bytes))
          (filter_map (get_elem? candidates) population) in
      canonical_binary (ext.population_value evidence) >>= λ bytes.
      settle candidates population
        (hash_prefixed ext (domain "naome-memory:lottery-population:v1") bytes)
        (episodic_budget (length population))
        (partial_fisher_yates fuel (ext.next_u64 seed) (length population)
          (episodic_budget (length population)))

  -- The end of `plan_retirement`.
  unfoldable pub compose :
      RetirementSnapshot
      → List RetirementCandidate
      → Digest32
      → Digest32
      → Selection
      → Lottery
      → Result RetirementPlan
  unfolding semantic_sources decide_all sort_by projected_post_state post_state_digest ceil_count
  compose snapshot candidates input_digest digest selection lottery = do
    sources ← semantic_sources selection.atoms
    state ←
        projected_post_state ext snapshot.memory_space_id candidates
          (decide_all (winner_ids lottery) sources candidates) selection.atoms
    state_digest ← post_state_digest ext state
    ok (record {
      contract_version = "retirement-plan-v1";
      policy_id = policy.policy_id;
      policy_digest = digest;
      seed = seed;
      memory_space_id = snapshot.memory_space_id;
      cohort_day = snapshot.cohort_day;
      as_of_us = snapshot.as_of_us;
      input_set_digest = input_digest;
      rng_identifier = "chacha20-rand_chacha-0.3/partial-fisher-yates-v1";
      episodic_population_digest = lottery.population_digest;
      episodic_population_count = lottery.population_count;
      episodic_winner_budget = lottery.budget;
      episodic_winner_bytes = lottery.bytes;
      semantic_count_budget =
          min (ceil_count policy.semantic_rate (length candidates)) policy.semantic_count_max;
      semantic_body_bytes = selection.bytes;
      semantic_decisions = selection.decisions;
      semantic_atoms = selection.atoms;
      episodic_winners = winner_ids lottery;
      decisions = decide_all (winner_ids lottery) sources candidates;
      projected_post_state = state;
      projected_state_digest = state_digest;
    })

  abbrev pub compose_drawn :
      RetirementSnapshot
      → List RetirementCandidate
      → Digest32
      → Digest32
      → Selection
      → Option Lottery
      → Result (Option RetirementPlan)
  compose_drawn snapshot candidates input_digest digest selection none = ok none
  compose_drawn snapshot candidates input_digest digest selection (some lottery) = do
    plan ← compose snapshot candidates input_digest digest selection lottery
    ok (some plan)

  unfoldable pub plan_retirement : RetirementSnapshot → Result (Option RetirementPlan)
  unfolding validate_snapshot validate_candidates sort_by retirement_input_digest policy_digest
      select_semantic draw_episodes compose
  plan_retirement snapshot = do
    validate_snapshot ext snapshot policy
    validate_candidates ext snapshot policy (sort_by by_atom_id snapshot.atoms)
    input_digest ← retirement_input_digest ext snapshot
    digest ← policy_digest ext policy
    selection ← select_semantic ext snapshot policy digest (sort_by by_atom_id snapshot.atoms)
    drawn ← draw_episodes (sort_by by_atom_id snapshot.atoms)
    compose_drawn snapshot (sort_by by_atom_id snapshot.atoms) input_digest digest selection drawn
