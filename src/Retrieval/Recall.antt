-- ===== src/Retrieval/Recall.antt =====
-- The spontaneous draw of crates/naome-memory-core/src/retrieval.rs.
use mathlib.Core.Option
use mathlib.Core.List.{Permᴰ}
use mathlib.Core.List.Permᴰ as Permᴰ
use naome_memory.Base.{
  ◌&&◌, ◌++◌, filterb, ℕ, ◌≤◌, ◌<◌, ◌≡◌, ◌≢◌, refl, sym, ap, ◌∙◌, subst, List, false, none, some,
  map, length, min, Option, ltb, ◌==◌, ◌||◌, arith, inl, inr, All, Option-cases, some_inj, not,
  set_contains, nat_ord, All-map,
}
use naome_memory.Error.{ok, >>=-eq-ok, >>-eq-ok, reject_if-eq-ok, ok_inj}
use naome_memory.Canonical.{canonical_binary}
use naome_memory.Policy.{Policy}
use naome_memory.Atom.{AtomId, kind, is_episodic_ltm}
use naome_memory.Externals.{Externals, hash_prefixed}
use naome_memory.Retirement.Lottery.{partial_fisher_yates}
use naome_memory.Retirement.Lottery.Uniform.{Accepts}
use naome_memory.Retirement.Lottery.Sampling.{
  partial_fisher_yates-IsSample, partial_fisher_yates_total,
}
use naome_memory.Retrieval.Types.{
  RetrievalHit, RetrievalQuery, RetrievalCandidate, RetrievalCandidates, RetrievalResult,
  SpontaneousRecallRequest, SpontaneousRecallResult,
}
use naome_memory.Retrieval.Checks.{in_query_scope, is_complete}
use naome_memory.Retrieval.Score.{ranked_hit}
use naome_memory.Retrieval.{
  validate_query, is_episode, flashback_pool, flashback_domain, flashback_hit, hits_at, recalled,
  recall, recall_requested, query_digest, finish, ranked_hits, rank_retrieval, result_of,
}
use naome_memory.Retrieval.Hits.{finish-eq-ok}
use naome_memory.Retrieval.Pool.{
  hits_at-Has, hits_at-part, IsRecallable, flashback_pool-Permᴰ, flashback_pool-Recallable,
}

module _ (ext : Externals) where
  none-ne-some : {A : Type 0} {a : A} → none ≡ some a → ⊥
  none-ne-some h = cc

  -- The candidates of the pool that may be recalled.
  abbrev pub recallable_of :
      RetrievalQuery → List AtomId → List RetrievalCandidate → List RetrievalCandidate
  recallable_of query excluded episodic_pool =
      filterb
        (λ c.
          is_complete c.integrity
          && is_episode (kind c.body)
          && is_episodic_ltm c.state
          && in_query_scope query c.body
          && not (set_contains c.atom_id excluded))
        episodic_pool

  -- A result of the draw of a request.
  pub record IsRecall (query : RetrievalQuery) (excluded : List AtomId)
      (episodic_pool : List RetrievalCandidate) (policy : Policy)
      (request : SpontaneousRecallRequest) (s : SpontaneousRecallResult) : Type 0 where
    pub seeded : s.seed ≡ request.seed
    pub asked : s.budget ≡ request.budget
    pub positive : 0 < request.budget
    pub bounded : request.budget ≤ policy.flashback_budget_max
    pub counted : s.population_count ≡ length (recallable_of query excluded episodic_pool)
    pub sized : length s.hits ≡ min request.budget s.population_count
    pub drawn :
        All
          (λ h.
            (c : RetrievalCandidate) × IsRecallable ext query excluded episodic_pool c
            × (flashback_hit c ≡ h))
          s.hits
    pub left : List RetrievalHit
    pub part :
        Permᴰ (s.hits ++ left) (map flashback_hit (recallable_of query excluded episodic_pool))

  budget_bounds : (n maximum : ℕ) → (n == 0 || ltb maximum n) ≡ false → (0 < n) × (n ≤ maximum)
  budget_bounds n maximum h = ground arith

  recall-IsRecall :
      (fuel : ℕ) (query : RetrievalQuery) (excluded : List AtomId)
      (episodic_pool : List RetrievalCandidate) (policy : Policy)
      (request : SpontaneousRecallRequest) (s : SpontaneousRecallResult)
      → recall ext fuel query excluded episodic_pool policy request ≡ ok (some s)
      → IsRecall query excluded episodic_pool policy request s
  unfolding recall
  recall-IsRecall fuel query excluded episodic_pool policy request s h =
      let (budget, h₁) =
        reject_if-eq-ok (request.budget == 0 || ltb policy.flashback_budget_max request.budget) _ _
          h in
      let (pool, pooled, h₂) = >>=-eq-ok (flashback_pool ext query excluded episodic_pool) _ h₁ in
      let (evidence, _, h₃) =
        >>=-eq-ok (canonical_binary (ext.ids_value (map (λ c. c.atom_id) pool))) _ h₂ in
      let (positive, bounded) = budget_bounds request.budget policy.flashback_budget_max budget in
      let (recallable, _) =
        flashback_pool-Recallable ext query excluded episodic_pool pool pooled in
      let (eligible, counted) = flashback_pool-Permᴰ ext query excluded episodic_pool pool pooled in
      elim (Option-cases (
        partial_fisher_yates fuel (ext.next_u64 request.seed) (length pool)
          (min request.budget (length pool)))) [
            | inl stuck ↦ absurd (none-ne-some (rw (stuck, recalled) at (ok_inj h₃)))
            | inr (positions, e) ↦
                let sample =
                  partial_fisher_yates-IsSample fuel (ext.next_u64 request.seed) (length pool)
                    (min request.budget (length pool)) positions e in
                let (same, hits) = hits_at-Has pool positions sample.below in
                let (left, part) =
                  hits_at-part pool (min request.budget (length pool)) positions sample in
                subst (IsRecall query excluded episodic_pool policy request)
                  (some_inj (
                    ap (recalled request pool (hash_prefixed ext flashback_domain evidence)) (sym e)
                    ∙ ok_inj h₃))
                  (record {
                    seeded = refl;
                    asked = refl;
                    positive = positive;
                    bounded = bounded;
                    counted = counted;
                    sized = omega (arith, same, sample.sized);
                    drawn =
                        All-map _ _ (hits_at pool positions) (λ h (c, m, f). (c, recallable c m, f))
                          hits;
                    left = left;
                    part = Permᴰ.trans part (Permᴰ.map flashback_hit eligible);
                  })
          ]

  -- A retrieval that was asked for a spontaneous draw and returns has one: it counts the recallable
  -- candidates of the pool, which leave out the ranked hits; it has as many hits as its budget and this count
  -- allow; each is a recallable candidate, and none is drawn more often than it stands in the pool.
  pub rank_retrieval-IsRecall :
      (fuel : ℕ) (query : RetrievalQuery) (candidates : RetrievalCandidates) (policy : Policy)
      (request : SpontaneousRecallRequest) (r : RetrievalResult)
      → query.spontaneous ≡ some request
      → rank_retrieval ext fuel query candidates policy ≡ ok (some r)
      → (s : SpontaneousRecallResult) × (r.spontaneous ≡ some s)
        × IsRecall query (map (λ h. h.atom_id) r.hits) candidates.episodic_pool policy request s
  unfolding rank_retrieval recall_requested
  rank_retrieval-IsRecall fuel query candidates policy request r asked h =
      let (valid, h₁) = >>-eq-ok (validate_query query candidates policy) _ h in
      let (top, ranked, h₂) = >>=-eq-ok (ranked_hits ext query candidates.ranked policy) _ h₁ in
      let (same, called) =
        finish-eq-ok ext fuel query (map ranked_hit top) candidates.episodic_pool policy r h₂ in
      requested r.spontaneous (
        subst
          (λ o.
            recall_requested ext fuel query (map (λ h. h.atom_id) r.hits) candidates.episodic_pool
              policy o
            ≡ ok (some r.spontaneous))
          asked
          (subst
            (λ hits.
              recall_requested ext fuel query (map (λ h. h.atom_id) hits) candidates.episodic_pool
                policy query.spontaneous
              ≡ ok (some r.spontaneous))
            (sym same) called))
    where
      requested :
          (o : Option SpontaneousRecallResult)
          → recall_requested ext fuel query
              (map (λ h. h.atom_id) r.hits)
              candidates.episodic_pool
              policy
              (some request)
            ≡ ok (some o)
          → (s : SpontaneousRecallResult) × (o ≡ some s)
            × IsRecall query (map (λ h. h.atom_id) r.hits) candidates.episodic_pool policy request s
      requested o e =
          let (drawn, called, e₁) =
            >>=-eq-ok
              (recall ext fuel query (map (λ h. h.atom_id) r.hits) candidates.episodic_pool policy
                request)
              _ e in
          elim (Option-cases drawn) [
            | inl f ↦ absurd (none-ne-some (rw (f, Option.map) at (ok_inj e₁)))
            | inr (s, f) ↦ (
              s,
              sym (some_inj (ap (Option.map some) (sym f) ∙ ok_inj e₁)),
              recall-IsRecall fuel query (map (λ h. h.atom_id) r.hits) candidates.episodic_pool
                  policy request s (called ∙ ap ok f),
            )
          ]

  recall_total :
      (fuel : ℕ) (query : RetrievalQuery) (excluded : List AtomId)
      (episodic_pool : List RetrievalCandidate) (policy : Policy)
      (request : SpontaneousRecallRequest)
      → Accepts fuel (length episodic_pool) (ext.next_u64 request.seed)
      → recall ext fuel query excluded episodic_pool policy request ≢ ok none
  unfolding recall
  recall_total fuel query excluded episodic_pool policy request accepts h =
      let (_, h₁) =
        reject_if-eq-ok (request.budget == 0 || ltb policy.flashback_budget_max request.budget) _ _
          h in
      let (pool, pooled, h₂) = >>=-eq-ok (flashback_pool ext query excluded episodic_pool) _ h₁ in
      let (evidence, _, h₃) =
        >>=-eq-ok (canonical_binary (ext.ids_value (map (λ c. c.atom_id) pool))) _ h₂ in
      let (_, shorter) = flashback_pool-Recallable ext query excluded episodic_pool pool pooled in
      let (positions, e, _) =
        partial_fisher_yates_total fuel (ext.next_u64 request.seed) (length pool)
          (min request.budget (length pool))
          (λ position. let (n, small, there) = accepts position in (n, small, omega arith)) in
      none-ne-some (
        sym (
          ap (recalled request pool (hash_prefixed ext flashback_domain evidence)) (sym e)
          ∙ ok_inj h₃))

  -- A retrieval does not run out of fuel, if any `fuel` outputs on end of the generator of the request
  -- that it holds, if it holds one, have one of at least the length of the pool.
  pub rank_retrieval_total :
      (fuel : ℕ) (query : RetrievalQuery) (candidates : RetrievalCandidates) (policy : Policy)
      → ((request : SpontaneousRecallRequest)
          → query.spontaneous ≡ some request
          → Accepts fuel (length candidates.episodic_pool) (ext.next_u64 request.seed))
      → rank_retrieval ext fuel query candidates policy ≢ ok none
  unfolding rank_retrieval finish recall_requested
  rank_retrieval_total fuel query candidates policy accepts h =
      let (valid, h₁) = >>-eq-ok (validate_query query candidates policy) _ h in
      let (top, ranked, h₂) = >>=-eq-ok (ranked_hits ext query candidates.ranked policy) _ h₁ in
      let (spontaneous, called, h₃) =
        >>=-eq-ok
          (recall_requested ext fuel query (map (λ h. h.atom_id) (map ranked_hit top))
            candidates.episodic_pool policy query.spontaneous)
          _ h₂ in
      let (digest, _, h₄) = >>=-eq-ok (query_digest ext query) _ h₃ in
      requested query.spontaneous (map (λ h. h.atom_id) (map ranked_hit top)) accepts
        (called ∙ ap ok (mapped (result_of (map ranked_hit top) digest) spontaneous (ok_inj h₄)))
    where
      mapped : {A B : Type 0} (f : A → B) (o : Option A) → Option.map f o ≡ none → o ≡ none
      mapped f none e = refl
      mapped f (some a) e = cc

      requested :
          (o : Option SpontaneousRecallRequest) (excluded : List AtomId)
          → ((request : SpontaneousRecallRequest)
              → o ≡ some request
              → Accepts fuel (length candidates.episodic_pool) (ext.next_u64 request.seed))
          → recall_requested ext fuel query excluded candidates.episodic_pool policy o ≡ ok none
          → ⊥
      requested none excluded accepts e = none-ne-some (sym (ok_inj e))
      requested (some request) excluded accepts e =
          let (drawn, called, e₁) =
            >>=-eq-ok (recall ext fuel query excluded candidates.episodic_pool policy request) _
              e in
          recall_total fuel query excluded candidates.episodic_pool policy request
            (accepts request refl) (called ∙ ap ok (mapped some drawn (ok_inj e₁)))
