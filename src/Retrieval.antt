-- ===== src/Retrieval.antt =====
-- crates/naome-memory-core/src/retrieval.rs: `rank_retrieval`, cut into the checks of the query, the
-- loop over the ranked candidates, and the spontaneous draw, which it calls in this order.
--
-- The draw reads the stream of the request's seed with a fuel, which bounds the outputs of the generator
-- that one rejection loop may consume; a result `ok none` says that a loop has used it up.
pub mod Types
pub mod Checks
pub mod Score
pub mod Hits
pub mod Recency
pub mod Pool
pub mod Recall
use mathlib.Core.Option
use naome_memory.Base.{
  ℕ, String, Bool, true, false, not, ◌&&◌, ◌||◌, List, [], ◌∷◌, Option, none, some, map, length,
  min, ltb, leb, ◌==◌, if◌then◌else◌, str_eq, str_empty, is_some, take, get_elem?, filter_map,
  set_contains, nat_ord, sort_by,
}
use naome_memory.Error.{
  Result, ok, err, reject_if, ◌>>=◌, ◌>>◌, unknown_version, empty_field, retrieval_limit_exceeded,
  candidate_limit_exceeded, invalid_flashback_budget,
}
use naome_memory.Canonical.{canonical_binary}
use naome_memory.Policy.{Policy, validate_poc_v1}
use naome_memory.Atom.{Digest32, AtomId, MemoryKind, kind, is_episodic_ltm}
use naome_memory.Externals.{Externals, hash_prefixed}
use naome_memory.Digests.{domain}
use naome_memory.Retirement.Lottery.{partial_fisher_yates}
use naome_memory.Retrieval.Types.{
  RetrievalQuery, RetrievalCandidate, RetrievalCandidates, RetrievalHit, RetrievalResult,
  SpontaneousRecallRequest, SpontaneousRecallResult, RecallReason, Generality,
}
use naome_memory.Retrieval.Checks.{
  has_meaningful_query_input, validate_unique, validate_candidate_times, validate_candidate,
  in_query_scope, is_complete,
}
use naome_memory.Retrieval.Score.{Scored, scored_as, score_of, ranks_before, ranked_hit}

abbrev pub default : ℕ → Option ℕ → ℕ
default d none = d
default d (some n) = n

abbrev pub requested_k : Policy → RetrievalQuery → ℕ
requested_k policy query = default policy.retrieval_default_k query.k

unfoldable pub validate_query : RetrievalQuery → RetrievalCandidates → Policy → Result (Unit {0})
unfolding validate_poc_v1 has_meaningful_query_input validate_unique validate_candidate_times
validate_query query candidates policy = do
  validate_poc_v1 policy
  reject_if (not (str_eq query.contract_version "retrieval-query-v1"))
      (unknown_version query.contract_version)
  reject_if (str_empty query.memory_space_id) (empty_field "memory_space_id")
  reject_if (not query.memory_space_wide && not (is_some query.repository_id))
      (empty_field "repository_id")
  reject_if (not (has_meaningful_query_input query)) (empty_field "retrieval_query")
  reject_if (requested_k policy query == 0 || ltb policy.retrieval_max_k (requested_k policy query))
      (retrieval_limit_exceeded (requested_k policy query) policy.retrieval_max_k)
  reject_if (ltb policy.retrieval_candidate_max (length candidates.ranked))
      (candidate_limit_exceeded (length candidates.ranked) policy.retrieval_candidate_max)
  validate_unique candidates.ranked
  validate_unique candidates.episodic_pool
  validate_candidate_times candidates.ranked query.as_of_us
  validate_candidate_times candidates.episodic_pool query.as_of_us

abbrev pub is_ranked : RetrievalQuery → RetrievalCandidate → Bool
unfolding in_query_scope
is_ranked query candidate = is_complete candidate.integrity && in_query_scope query candidate.body

abbrev pub is_episode : MemoryKind → Bool
is_episode MemoryKind.episode = true
is_episode MemoryKind.semantic = false

abbrev pub is_recallable : RetrievalQuery → List AtomId → RetrievalCandidate → Bool
unfolding in_query_scope
is_recallable query excluded candidate =
    is_complete candidate.integrity
    && is_episode (kind candidate.body)
    && is_episodic_ltm candidate.state
    && in_query_scope query candidate.body
    && not (set_contains candidate.atom_id excluded)

abbrev pub by_atom_id : RetrievalCandidate → RetrievalCandidate → Bool
by_atom_id left right = leb left.atom_id right.atom_id

abbrev pub flashback_domain : List ℕ
flashback_domain = domain "naome-memory:flashback-population:v1"

abbrev pub flashback_hit : RetrievalCandidate → RetrievalHit
flashback_hit candidate = record {
  atom_id = candidate.atom_id;
  score = none;
  recall_reason = RecallReason.spontaneous;
  generality = Generality.single_episode;
}

abbrev pub push_hit : Option RetrievalCandidate → List RetrievalHit → List RetrievalHit
push_hit none hits = hits
push_hit (some candidate) hits = flashback_hit candidate ∷ hits

-- The hits at the drawn positions, each of which the pool has.
unfoldable pub hits_at : List RetrievalCandidate → List ℕ → List RetrievalHit
hits_at pool [] = []
hits_at pool (position ∷ positions) = push_hit (get_elem? pool position) (hits_at pool positions)

abbrev pub recalled :
    SpontaneousRecallRequest
    → List RetrievalCandidate
    → Digest32
    → Option (List ℕ)
    → Option SpontaneousRecallResult
unfolding hits_at
recalled request pool population_digest none = none
recalled request pool population_digest (some positions) = some record {
  seed = request.seed;
  budget = request.budget;
  population_digest = population_digest;
  population_count = length pool;
  hits = hits_at pool positions;
}

abbrev pub result_of :
    List RetrievalHit → Digest32 → Option SpontaneousRecallResult → RetrievalResult
result_of hits query_digest spontaneous = record {
  contract_version = "retrieval-result-v1";
  query_digest = query_digest;
  hits = hits;
  spontaneous = spontaneous;
}

module _ (ext : Externals) where
  -- A loop that validates every candidate and keeps those of a test.
  unfoldable pub keep_valid :
      (RetrievalCandidate → Bool) → List RetrievalCandidate → Result (List RetrievalCandidate)
  unfolding validate_candidate
  keep_valid keeps [] = ok []
  keep_valid keeps (candidate ∷ candidates) = do
    validate_candidate ext candidate
    kept ← keep_valid keeps candidates
    ok (if keeps candidate then candidate ∷ kept else kept)

  -- The hits of the query: the loop over the ranked candidates, the sort and the cut.
  unfoldable pub ranked_hits :
      RetrievalQuery → List RetrievalCandidate → Policy → Result (List Scored)
  unfolding keep_valid in_query_scope score_of sort_by
  ranked_hits query ranked policy = do
    kept ← keep_valid (is_ranked query) ranked
    ok (take (requested_k policy query) (sort_by ranks_before (map (scored_as policy query) kept)))

  -- The pool of the draw, in the order of the identifiers.
  unfoldable pub flashback_pool :
      RetrievalQuery → List AtomId → List RetrievalCandidate → Result (List RetrievalCandidate)
  unfolding keep_valid in_query_scope sort_by
  flashback_pool query excluded episodic_pool = do
    pool ← keep_valid (is_recallable query excluded) episodic_pool
    ok (sort_by by_atom_id pool)

  unfoldable pub recall :
      ℕ
      → RetrievalQuery
      → List AtomId
      → List RetrievalCandidate
      → Policy
      → SpontaneousRecallRequest
      → Result (Option SpontaneousRecallResult)
  unfolding flashback_pool hash_prefixed partial_fisher_yates hits_at
  recall fuel query excluded episodic_pool policy request = do
    reject_if (request.budget == 0 || ltb policy.flashback_budget_max request.budget)
        (invalid_flashback_budget policy.flashback_budget_max)
    pool ← flashback_pool query excluded episodic_pool
    evidence ← canonical_binary (ext.ids_value (map (λ c. c.atom_id) pool))
    ok (
        recalled request pool (hash_prefixed ext flashback_domain evidence) (
          partial_fisher_yates fuel (ext.next_u64 request.seed) (length pool)
            (min request.budget (length pool))))

  -- The digest of the query.
  unfoldable pub query_digest : RetrievalQuery → Result Digest32
  unfolding hash_prefixed
  query_digest query = do
    bytes ← canonical_binary (ext.query_value query)
    ok (hash_prefixed ext (domain "naome-memory:retrieval-query:v1") bytes)

  -- `if let Some(request) = query.spontaneous`
  unfoldable pub recall_requested :
      ℕ
      → RetrievalQuery
      → List AtomId
      → List RetrievalCandidate
      → Policy
      → Option SpontaneousRecallRequest
      → Result (Option (Option SpontaneousRecallResult))
  unfolding recall
  recall_requested fuel query excluded episodic_pool policy none = ok (some none)
  recall_requested fuel query excluded episodic_pool policy (some request) = do
    drawn ← recall fuel query excluded episodic_pool policy request
    ok (Option.map some drawn)

  -- The end of `rank_retrieval`, with the hits of the query.
  unfoldable pub finish :
      ℕ
      → RetrievalQuery
      → List RetrievalHit
      → List RetrievalCandidate
      → Policy
      → Result (Option RetrievalResult)
  unfolding recall_requested query_digest
  finish fuel query hits episodic_pool policy = do
    spontaneous ←
        recall_requested fuel query (map (λ h. h.atom_id) hits) episodic_pool policy
          query.spontaneous
    digest ← query_digest query
    ok (Option.map (result_of hits digest) spontaneous)

  unfoldable pub rank_retrieval :
      ℕ → RetrievalQuery → RetrievalCandidates → Policy → Result (Option RetrievalResult)
  unfolding validate_query ranked_hits finish
  rank_retrieval fuel query candidates policy = do
    validate_query query candidates policy
    scored ← ranked_hits query candidates.ranked policy
    finish fuel query (map ranked_hit scored) candidates.episodic_pool policy
