-- ===== src/Retrieval/Score.antt =====
-- crates/naome-memory-core/src/retrieval.rs: the score of a candidate, and the order of the hits.
use naome_memory.Base.{
  ℕ, ◌-◌, Bool, ◌&&◌, ◌||◌, [], ◌∷◌, ltb, leb, ◌==◌, if◌then◌else◌, arith, some,
}
use naome_memory.Base.Sort.{IsPreorder}
use naome_memory.Fixed.{Ppm, ratio, multiply, sum_capped}
use naome_memory.Policy.{Policy}
use naome_memory.Atom.{AtomId, MemoryKind, kind, validated_utility}
use naome_memory.Retirement.Similarity.{jaccard}
use naome_memory.Retrieval.Types.{
  RetrievalQuery, RetrievalCandidate, RetrievalScore, RetrievalHit, query_ranked, Generality,
}

unfoldable pub recency_score : ℕ → ℕ → ℕ → Ppm
unfolding ratio
recency_score as_of_us recorded_at_us horizon_us =
    if ltb as_of_us recorded_at_us || horizon_us == 0
    then 0
    else if leb horizon_us (as_of_us - recorded_at_us)
    then 0
    else ratio (horizon_us - (as_of_us - recorded_at_us)) horizon_us

abbrev pub generality : MemoryKind → Generality
generality MemoryKind.episode = Generality.single_episode
generality MemoryKind.semantic = Generality.semantic

-- What `rank_retrieval` computes of a candidate that it does not skip.
unfoldable pub score_of : Policy → RetrievalQuery → RetrievalCandidate → RetrievalScore
unfolding jaccard recency_score validated_utility multiply sum_capped
score_of policy query candidate =
    let semantic = jaccard query.topic_keys candidate.body.topic_keys in
    let entity = jaccard query.entity_ids candidate.body.entity_ids in
    let utility = validated_utility candidate.state in
    let recency =
      recency_score query.as_of_us candidate.body.interval.recorded_at_us
        policy.retrieval_recency_horizon_us in
    record {
      lexical = candidate.lexical_score;
      semantic = semantic;
      entity = entity;
      validated_utility = utility;
      recency = recency;
      total = sum_capped (
          multiply policy.retrieval_lexical_weight candidate.lexical_score
          ∷ multiply policy.retrieval_semantic_weight semantic
          ∷ multiply policy.retrieval_entity_weight entity
          ∷ multiply policy.retrieval_utility_weight utility
          ∷ multiply policy.retrieval_recency_weight recency
          ∷ []);
    }

-- An element of `scored`.
pub record Scored : Type 0 where
  pub atom_id : AtomId
  pub kind : MemoryKind
  pub score : RetrievalScore

abbrev pub scored_as : Policy → RetrievalQuery → RetrievalCandidate → Scored
unfolding score_of
scored_as policy query candidate = record {
  atom_id = candidate.atom_id;
  kind = kind candidate.body;
  score = score_of policy query candidate;
}

-- The order of the hits: a higher total first, then a lower identifier.
abbrev pub ranks_before : Scored → Scored → Bool
ranks_before left right =
    ltb right.score.total left.score.total
    || (left.score.total == right.score.total && leb left.atom_id right.atom_id)

abbrev pub ranked_hit : Scored → RetrievalHit
ranked_hit scored = record {
  atom_id = scored.atom_id;
  score = some scored.score;
  recall_reason = query_ranked;
  generality = generality scored.kind;
}

pub ranks_before-IsPreorder : IsPreorder ranks_before
ranks_before-IsPreorder = record {
  le_total = λ a b. ground arith;
  le_trans = λ a b c. ground arith;
}
