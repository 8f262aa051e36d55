-- ===== src/Retrieval/Pool.antt =====
-- The pool of the spontaneous draw of crates/naome-memory-core/src/retrieval.rs, and the hits at its
-- positions.
use mathlib.Core.List.{Permᴰ}
use mathlib.Core.List.Permᴰ as Permᴰ
use naome_memory.Base.{
  ◌++◌, filter_map, filterb, sort_by, length-filterb, Has-filterb, ℕ, zero, suc, ◌≤◌, ◌<◌, ◌≡◌,
  refl, sym, ap, ◌∙◌, subst, List, [], ◌∷◌, true, some, map, length, arith, inl, inr, All, Has,
  get_elem?, Option-cases, not, &&_true, set_contains, nat_ord, All-Has,
}
use naome_memory.Base.Sort.{sort_by-Permᴰ, Has-sort_by, length-sort_by}
use naome_memory.Error.{ok, >>=-eq-ok, ok_inj}
use naome_memory.Atom.{AtomId, kind, is_episodic_ltm}
use naome_memory.Externals.{Externals}
use naome_memory.Retirement.Lottery.Sampling.{IsSample}
use naome_memory.Retirement.Lottery.Picks.{sample-part}
use naome_memory.Retrieval.Types.{RetrievalHit, RetrievalQuery, RetrievalCandidate}
use naome_memory.Retrieval.Checks.{validate_candidate, in_query_scope, is_complete}
use naome_memory.Retrieval.{
  keep_valid, is_episode, is_recallable, by_atom_id, flashback_pool, flashback_hit, hits_at,
}
use naome_memory.Retrieval.Hits.{keep_valid-eq}

get_elem?-lt :
    {A : Type 0} (xs : List A) (p : ℕ)
    → p < length xs
    → (a : A) × (get_elem? xs p ≡ some a) × Has a xs
get_elem?-lt [] p h = absurd (omega (arith, h))
get_elem?-lt (x ∷ xs) zero h = (x, refl, inl refl)
get_elem?-lt (x ∷ xs) (suc p) h = let (a, e, m) = get_elem?-lt xs p (omega arith) in (a, e, inr m)

map_append : {A B : Type 0} (f : A → B) (xs ys : List A) → map f (xs ++ ys) ≡ map f xs ++ map f ys
map_append f [] ys = refl
map_append f (x ∷ xs) ys = ap (λ zs. f x ∷ zs) (map_append f xs ys)

hits_at-map :
    (pool : List RetrievalCandidate) (positions : List ℕ)
    → hits_at pool positions ≡ map flashback_hit (filter_map (get_elem? pool) positions)
unfolding hits_at
hits_at-map pool [] = refl
hits_at-map pool (p ∷ ps) = elim (Option-cases (get_elem? pool p)) [
  | inl e ↦ rw (e, filter_map) (hits_at-map pool ps)
  | inr (c, e) ↦ rw (e, filter_map) (ap (λ hs. flashback_hit c ∷ hs) (hits_at-map pool ps))
]

pub hits_at-Has :
    (pool : List RetrievalCandidate) (positions : List ℕ)
    → All (λ p. p < length pool) positions
    → (length (hits_at pool positions) ≡ length positions)
      × All
          (λ h. (c : RetrievalCandidate) × Has c pool × (flashback_hit c ≡ h))
          (hits_at pool positions)
unfolding hits_at
hits_at-Has pool [] h = (refl, tt)
hits_at-Has pool (p ∷ ps) h =
    let (c, e, m) = get_elem?-lt pool p h.0 in
    let (same, all) = hits_at-Has pool ps h.1 in rw e (ap suc same, ((c, m, refl), all))

-- The hits at a sample of positions are a part of the hits of the pool.
pub hits_at-part :
    (pool : List RetrievalCandidate) (count : ℕ) (positions : List ℕ)
    → IsSample (length pool) count positions
    → (left : List RetrievalHit) × Permᴰ (hits_at pool positions ++ left) (map flashback_hit pool)
hits_at-part pool count positions sample =
    let (_, (left, p)) = sample-part pool count positions sample in
    (
      map flashback_hit left,
      subst (λ hs. Permᴰ hs (map flashback_hit pool))
          (map_append flashback_hit (filter_map (get_elem? pool) positions) left
            ∙ ap (λ hs. hs ++ map flashback_hit left) (sym (hits_at-map pool positions)))
          (Permᴰ.map flashback_hit p),
    )

module _ (ext : Externals) where
  -- The pool holds the candidates that may be recalled, each as often as it was given.
  pub flashback_pool-Permᴰ :
      (query : RetrievalQuery) (excluded : List AtomId)
      (episodic_pool pool : List RetrievalCandidate)
      → flashback_pool ext query excluded episodic_pool ≡ ok pool
      → Permᴰ pool (filterb (is_recallable query excluded) episodic_pool)
        × (length pool ≡ length (filterb (is_recallable query excluded) episodic_pool))
  unfolding flashback_pool
  flashback_pool-Permᴰ query excluded episodic_pool pool h =
      let (kept, looped, h₁) =
        >>=-eq-ok (keep_valid ext (is_recallable query excluded) episodic_pool) _ h in
      let (same, _) = keep_valid-eq ext (is_recallable query excluded) episodic_pool kept looped in
      let recallable = filterb (is_recallable query excluded) episodic_pool in
      subst (λ cs. Permᴰ cs recallable × (length cs ≡ length recallable)) (ok_inj h₁)
        (
          subst (Permᴰ (sort_by by_atom_id kept)) same (sort_by-Permᴰ by_atom_id kept),
          length-sort_by by_atom_id kept ∙ ap length same,
        )

  -- What the draw may recall.
  pub record IsRecallable (query : RetrievalQuery) (excluded : List AtomId)
      (episodic_pool : List RetrievalCandidate) (c : RetrievalCandidate) : Type 0 where
    pub known : Has c episodic_pool
    pub valid : validate_candidate ext c ≡ ok tt
    pub whole : is_complete c.integrity ≡ true
    pub episodic : is_episode (kind c.body) ≡ true
    pub long_term : is_episodic_ltm c.state ≡ true
    pub scoped : in_query_scope query c.body ≡ true
    pub fresh : not (set_contains c.atom_id excluded) ≡ true

  pub flashback_pool-Recallable :
      (query : RetrievalQuery) (excluded : List AtomId)
      (episodic_pool pool : List RetrievalCandidate)
      → flashback_pool ext query excluded episodic_pool ≡ ok pool
      → ((c : RetrievalCandidate) → Has c pool → IsRecallable query excluded episodic_pool c)
        × (length pool ≤ length episodic_pool)
  unfolding flashback_pool
  flashback_pool-Recallable query excluded episodic_pool pool h =
      let (kept, looped, h₁) =
        >>=-eq-ok (keep_valid ext (is_recallable query excluded) episodic_pool) _ h in
      let (same, valid) =
        keep_valid-eq ext (is_recallable query excluded) episodic_pool kept looped in
      let sorted = ok_inj h₁ in
      (
        λ c m.
            let (known, passes) =
              Has-filterb (is_recallable query excluded) episodic_pool c (
                subst (Has c) same
                  (Has-sort_by by_atom_id kept c (subst (Has c) (sym sorted) m))) in
            parts c (All-Has _ episodic_pool c valid known) known passes,
        omega (
          arith,
          length-filterb (is_recallable query excluded) episodic_pool,
          ap length same,
          ap length sorted,
          length-sort_by by_atom_id kept,
        ),
      )
    where
      parts :
          (c : RetrievalCandidate)
          → validate_candidate ext c ≡ ok tt
          → Has c episodic_pool
          → is_recallable query excluded c ≡ true
          → IsRecallable query excluded episodic_pool c
      parts c valid known passes =
          let (p, fresh) = &&_true _ (not (set_contains c.atom_id excluded)) passes in
          let (q, scoped) = &&_true _ (in_query_scope query c.body) p in
          let (w, long_term) = &&_true _ (is_episodic_ltm c.state) q in
          let (whole, episodic) = &&_true (is_complete c.integrity) (is_episode (kind c.body)) w in
          record {
            known = known;
            valid = valid;
            whole = whole;
            episodic = episodic;
            long_term = long_term;
            scoped = scoped;
            fresh = fresh;
          }
