-- ===== src/Retrieval/Hits.antt =====
-- The hits that crates/naome-memory-core/src/retrieval.rs ranks: which they are, and in what order.
use mathlib.Core.Option
use mathlib.Core.List.{Permᴰ}
use naome_memory.Base.{
  Has-filterb, Has-map, Has-take, ℕ, zero, suc, ◌≤◌, ◌<◌, ◌≡◌, refl, sym, ap, min, length-take,
  length-map, ◌++◌, ◌∙◌, subst, List, [], ◌∷◌, Bool, true, false, Option, none, some, map, length,
  ltb, ◌==◌, ◌||◌, arith, All, Has, take, drop, filterb, sort_by, if◌then◌else◌, some_inj, str_eq,
  str_empty, not, is_some, ◌&&◌, &&_true, All-of_Has, All-Has,
}
use naome_memory.Base.Sort.{
  IsSorted, sort_by-IsSorted, take-le-drop, sort_by-Permᴰ, length-sort_by, Has-sort_by,
}
use naome_memory.Error.{Result, ok, >>=-eq-ok, >>-eq-ok, reject_if-eq-ok, ok_inj}
use naome_memory.Atom.{Digest32}
use naome_memory.Policy.{Policy, validate_poc_v1}
use naome_memory.Externals.{Externals}
use naome_memory.Retrieval.Types.{
  RetrievalQuery, RetrievalCandidate, RetrievalCandidates, RetrievalResult, RetrievalHit,
  SpontaneousRecallResult,
}
use naome_memory.Retrieval.Checks.{
  has_meaningful_query_input, validate_candidate, in_query_scope, is_complete,
}
use naome_memory.Retrieval.Score.{
  Scored, scored_as, ranks_before, ranked_hit, ranks_before-IsPreorder,
}
use naome_memory.Retrieval.{
  requested_k, validate_query, keep_valid, is_ranked, ranked_hits, finish, rank_retrieval,
  result_of, recall_requested, query_digest,
}

take-append-drop : {A : Type 0} (k : ℕ) (xs : List A) → take k xs ++ drop k xs ≡ xs
take-append-drop zero xs = refl
take-append-drop (suc k) [] = refl
take-append-drop (suc k) (x ∷ xs) = ap (λ ys. x ∷ ys) (take-append-drop k xs)

pub IsSorted-take :
    {A : Type 0} (le : A → A → Bool) (k : ℕ) (xs : List A)
    → IsSorted le xs
    → IsSorted le (take k xs)
IsSorted-take le zero xs s = tt
IsSorted-take le (suc k) [] s = tt
IsSorted-take le (suc k) (x ∷ xs) s = (
  All-of_Has _ (take k xs) (λ a m. All-Has _ xs a s.0 (Has-take k xs a m)),
  IsSorted-take le k xs s.1,
)

pub validate_query-k :
    (query : RetrievalQuery) (candidates : RetrievalCandidates) (policy : Policy)
    → validate_query query candidates policy ≡ ok tt
    → (0 < requested_k policy query) × (requested_k policy query ≤ policy.retrieval_max_k)
unfolding validate_query
validate_query-k query candidates policy h =
    let (_, h₁) = >>-eq-ok (validate_poc_v1 policy) _ h in
    let (_, h₂) =
      reject_if-eq-ok (not (str_eq query.contract_version "retrieval-query-v1")) _ _ h₁ in
    let (_, h₃) = reject_if-eq-ok (str_empty query.memory_space_id) _ _ h₂ in
    let (_, h₄) =
      reject_if-eq-ok (not query.memory_space_wide && not (is_some query.repository_id)) _ _ h₃ in
    let (_, h₅) = reject_if-eq-ok (not (has_meaningful_query_input query)) _ _ h₄ in
    let (k, h₆) =
      reject_if-eq-ok
        (requested_k policy query == 0 || ltb policy.retrieval_max_k (requested_k policy query)) _ _
        h₅ in
    k_bounds (requested_k policy query) policy.retrieval_max_k k
  where
    k_bounds : (k maximum : ℕ) → (k == 0 || ltb maximum k) ≡ false → (0 < k) × (k ≤ maximum)
    k_bounds k maximum h = ground arith

module _ (ext : Externals) where
  -- The loop keeps exactly the candidates of its test, and has validated all.
  pub keep_valid-eq :
      (keeps : RetrievalCandidate → Bool) (cs kept : List RetrievalCandidate)
      → keep_valid ext keeps cs ≡ ok kept
      → (kept ≡ filterb keeps cs) × All (λ c. validate_candidate ext c ≡ ok tt) cs
  unfolding keep_valid
  keep_valid-eq keeps [] kept h = (sym (ok_inj h), tt)
  keep_valid-eq keeps (c ∷ cs) kept h =
      let (valid, h₁) = >>-eq-ok (validate_candidate ext c) _ h in
      let (rest, kept_rest, h₂) = >>=-eq-ok (keep_valid ext keeps cs) _ h₁ in
      let (same, all) = keep_valid-eq keeps cs rest kept_rest in
      (sym (ok_inj h₂) ∙ ap (λ r. if keeps c then c ∷ r else r) same, (valid, all))

  -- What a query asks of a ranked candidate.
  pub record IsAnswer (query : RetrievalQuery) (ranked : List RetrievalCandidate)
      (c : RetrievalCandidate) : Type 0 where
    pub known : Has c ranked
    pub valid : validate_candidate ext c ≡ ok tt
    pub whole : is_complete c.integrity ≡ true
    pub scoped : in_query_scope query c.body ≡ true

  -- The answers among the ranked candidates: those that are complete and in the scope of the query.
  abbrev pub answers_of : RetrievalQuery → List RetrievalCandidate → List RetrievalCandidate
  answers_of query ranked =
      filterb (λ c. is_complete c.integrity && in_query_scope query c.body) ranked

  -- A list of scored candidates is the top of the answers.
  pub record IsTop (policy : Policy) (query : RetrievalQuery) (ranked : List RetrievalCandidate)
      (top : List Scored) : Type 0 where
    pub sized : length top ≡ min (requested_k policy query) (length (answers_of query ranked))
    pub sorted : IsSorted ranks_before top
    pub answers :
        All
          (λ s. (c : RetrievalCandidate) × IsAnswer query ranked c × (scored_as policy query c ≡ s))
          top
    pub left : List Scored
    pub whole : Permᴰ (top ++ left) (map (scored_as policy query) (answers_of query ranked))
    pub before : All (λ s. All (λ t. ranks_before s t ≡ true) left) top

  pub ranked_hits-IsTop :
      (policy : Policy) (query : RetrievalQuery) (ranked : List RetrievalCandidate)
      (top : List Scored)
      → ranked_hits ext query ranked policy ≡ ok top
      → IsTop policy query ranked top
  unfolding ranked_hits
  ranked_hits-IsTop policy query ranked top h =
      let (kept, looped, h₁) = >>=-eq-ok (keep_valid ext (is_ranked query) ranked) _ h in
      let (same, valid) = keep_valid-eq (is_ranked query) ranked kept looped in
      let k = requested_k policy query in
      let scored = map (scored_as policy query) kept in
      let sorted = sort_by-IsSorted ranks_before ranks_before-IsPreorder scored in
      subst (IsTop policy query ranked) (ok_inj h₁) (record {
        sized =
            length-take k (sort_by ranks_before scored)
            ∙ ap (min k) (
                length-sort_by ranks_before scored
                ∙ length-map (scored_as policy query) kept
                ∙ ap length same);
        sorted = IsSorted-take ranks_before k (sort_by ranks_before scored) sorted;
        answers = All-of_Has _ (take k (sort_by ranks_before scored)) (λ s m.
            let (c, among, e) =
              Has-map (scored_as policy query) kept s
                (Has-sort_by ranks_before scored s (Has-take k _ s m)) in
            let (known, passes) =
              Has-filterb (is_ranked query) ranked c (subst (Has c) same among) in
            let (whole, scoped) =
              &&_true (is_complete c.integrity) (in_query_scope query c.body) passes in
            (
              c,
              record {
                known = known;
                valid = All-Has _ ranked c valid known;
                whole = whole;
                scoped = scoped;
              },
              e,
            ));
        left = drop k (sort_by ranks_before scored);
        whole =
            subst (λ ss. Permᴰ ss (map (scored_as policy query) (filterb (is_ranked query) ranked)))
              (sym (take-append-drop k (sort_by ranks_before scored)))
              (subst (λ cs. Permᴰ (sort_by ranks_before scored) (map (scored_as policy query) cs))
                same (sort_by-Permᴰ ranks_before scored));
        before =
            take-le-drop ranks_before ranks_before-IsPreorder k (sort_by ranks_before scored)
              sorted;
      })

  some-ne-none : {A : Type 0} {a : A} → none ≡ some a → ⊥
  some-ne-none h = cc

  -- What the end of `rank_retrieval` adds to the hits.
  pub finish-eq-ok :
      (fuel : ℕ) (query : RetrievalQuery) (hits : List RetrievalHit)
      (pool : List RetrievalCandidate) (policy : Policy) (r : RetrievalResult)
      → finish ext fuel query hits pool policy ≡ ok (some r)
      → (r.hits ≡ hits)
        × (recall_requested ext fuel query (map (λ h. h.atom_id) hits) pool policy query.spontaneous
            ≡ ok (some r.spontaneous))
  unfolding finish
  finish-eq-ok fuel query hits pool policy r h =
      let (spontaneous, called, h₁) =
        >>=-eq-ok
          (recall_requested ext fuel query (map (λ h. h.atom_id) hits) pool policy
            query.spontaneous)
          _ h in
      let (digest, _, h₂) = >>=-eq-ok (query_digest ext query) _ h₁ in
      result hits digest spontaneous called (ok_inj h₂)
    where
      result :
          (hits : List RetrievalHit) (digest : Digest32)
          (spontaneous : Option (Option SpontaneousRecallResult))
          {c : Result (Option (Option SpontaneousRecallResult))}
          → c ≡ ok spontaneous
          → Option.map (result_of hits digest) spontaneous ≡ some r
          → (r.hits ≡ hits) × (c ≡ ok (some r.spontaneous))
      result hits digest none e f = absurd (some-ne-none f)
      result hits digest (some s) e f =
          let g = some_inj f in (sym (ap (λ x. x.hits) g), e ∙ ap (λ x. ok (some x.spontaneous)) g)

  -- The hits of a retrieval that returns are the top of its answers: as many as requested, from 1 to the
  -- maximum of the policy, or all answers where there are fewer; in the order of the rank; and with the
  -- answers that are left, which every hit ranks before or ties with, they are all answers, each scored.
  pub rank_retrieval-IsTop :
      (fuel : ℕ) (query : RetrievalQuery) (candidates : RetrievalCandidates) (policy : Policy)
      (r : RetrievalResult)
      → rank_retrieval ext fuel query candidates policy ≡ ok (some r)
      → (top : List Scored) × (r.hits ≡ map ranked_hit top)
        × IsTop policy query candidates.ranked top
        × (0 < requested_k policy query)
        × (requested_k policy query ≤ policy.retrieval_max_k)
  unfolding rank_retrieval
  rank_retrieval-IsTop fuel query candidates policy r h =
      let (valid, h₁) = >>-eq-ok (validate_query query candidates policy) _ h in
      let (top, ranked, h₂) = >>=-eq-ok (ranked_hits ext query candidates.ranked policy) _ h₁ in
      let (positive, bounded) = validate_query-k query candidates policy valid in
      (
        top,
        (finish-eq-ok fuel query (map ranked_hit top) candidates.episodic_pool policy r h₂).0,
        ranked_hits-IsTop policy query candidates.ranked top ranked,
        positive,
        bounded,
      )
