-- ===== src/Tests/Retrievals.antt =====
-- A retrieval with a spontaneous draw.
use naome_memory.Base.{◌≡◌, ◌≢◌, refl, ◌≤◌, ◌<◌, List, [], ◌∷◌, some, none, map, arith, nats_eq}
use naome_memory.Error.{ok}
use naome_memory.Policy.{poc_v1}
use naome_memory.Fixed.{scale}
use naome_memory.Canonical.{canonical_binary}
use naome_memory.Retirement.Lottery.Uniform.{Accepts}
use naome_memory.Retrieval.Types.{
  RetrievalResult, SpontaneousRecallResult, SpontaneousRecallRequest, query_ranked, RecallReason,
  Generality,
}
use naome_memory.Retrieval.Score.{Scored, ranked_hit, recency_score}
use naome_memory.Retrieval.{rank_retrieval, requested_k}
use naome_memory.Retrieval.Hits.{IsTop, rank_retrieval-IsTop}
use naome_memory.Retrieval.Recall.{IsRecall, rank_retrieval-IsRecall, rank_retrieval_total}
use naome_memory.Retrieval.Recency.{recency_score_mono}
use naome_memory.Tests.Samples.{toy, query, found}

-- One hit of the query, and one flashback.
abbrev result : RetrievalResult
result = record {
  contract_version = "retrieval-result-v1";
  query_digest = 33;
  hits =
      record {
        atom_id = 31;
        score = some record {
          lexical = 500_000;
          semantic = 1_000_000;
          entity = 0;
          validated_utility = 666_666;
          recency = 999_999;
          total = 591_665;
        };
        recall_reason = query_ranked;
        generality = Generality.single_episode;
      }
      ∷ [];
  spontaneous = some record {
    seed = 7;
    budget = 2;
    population_digest = 38;
    population_count = 1;
    hits =
        record {
          atom_id = 32;
          score = none;
          recall_reason = RecallReason.spontaneous;
          generality = Generality.single_episode;
        }
        ∷ [];
  };
}

run : rank_retrieval toy 1 query found poc_v1 ≡ ok (some result)
unfolding rank_retrieval canonical_binary nats_eq
run = refl

abbrev request : SpontaneousRecallRequest
request = record { seed = 7; budget = 2 }

rank_retrieval-IsTop_example :
    (top : List Scored) × (result.hits ≡ map ranked_hit top)
    × IsTop toy poc_v1 query found.ranked top
    × (0 < requested_k poc_v1 query)
    × (requested_k poc_v1 query ≤ 100)
rank_retrieval-IsTop_example = rank_retrieval-IsTop toy 1 query found poc_v1 result run

rank_retrieval-IsRecall_example :
    (s : SpontaneousRecallResult) × (result.spontaneous ≡ some s)
    × IsRecall toy query (31 ∷ []) found.episodic_pool poc_v1 request s
rank_retrieval-IsRecall_example =
    rank_retrieval-IsRecall toy 1 query found poc_v1 request result refl run

accepts :
    (r : SpontaneousRecallRequest) → query.spontaneous ≡ some r → Accepts 1 1 (toy.next_u64 r.seed)
accepts r e position = (0, omega arith, omega arith)

rank_retrieval_total_example : rank_retrieval toy 1 query found poc_v1 ≢ ok none
rank_retrieval_total_example = rank_retrieval_total toy 1 query found poc_v1 accepts

recency_score_mono_example :
    (recency_score 100 20 1000 ≤ recency_score 100 60 1000) × (recency_score 100 60 1000 ≤ scale)
recency_score_mono_example = recency_score_mono 100 20 60 1000 (omega arith) (omega arith)
