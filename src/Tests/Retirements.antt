-- ===== src/Tests/Retirements.antt =====
-- Clusters and selections of the sample candidates.
use mathlib.Core.List.{flatten, Perm}
use naome_memory.Base.{◌≡◌, refl, [], ◌∷◌, All, none, map, arith}
use naome_memory.Error.{ok}
use naome_memory.Policy.{poc_v1}
use naome_memory.Atom.{ConsolidationScore, MemoryAtomBody, MemoryPayload}
use naome_memory.Retirement.Types.{PlannedSemanticAtom, selected}
use naome_memory.Retirement.Similarity.{complete_link_clusters, linked}
use naome_memory.Retirement.Similarity.Clusters.{Complete, complete_link_clusters-partition}
use naome_memory.Retirement.Budget.{Selection, select_from, nothing_selected}
use naome_memory.Retirement.Budget.Bounds.{WithinBudget, select_from-IsSelection, select_from_total}
use naome_memory.Tests.Samples.{retiring, first}

complete_link_clusters-partition_example :
    Perm (flatten (complete_link_clusters poc_v1 retiring (0 ∷ 1 ∷ []))) (0 ∷ 1 ∷ [])
    × All
        (Complete (linked poc_v1 retiring) [])
        (complete_link_clusters poc_v1 retiring (0 ∷ 1 ∷ []))
complete_link_clusters-partition_example =
    complete_link_clusters-partition poc_v1 retiring (0 ∷ 1 ∷ [])

abbrev score : ConsolidationScore
score = record {
  support = 0;
  diversity = 0;
  utility = 0;
  salience = 0;
  cohesion = 0;
  novelty = 0;
  uncertainty = 0;
  total = 600_000;
}

abbrev consolidated : MemoryAtomBody
consolidated = record first {
  payload = MemoryPayload.semantic (record {
    source_ids = 31 ∷ 32 ∷ 33 ∷ [];
    source_body_digests = [];
    score = score;
    consensus_numerator = 2;
    consensus_denominator = 3;
    supersedes = none;
  });
}

abbrev planned : PlannedSemanticAtom
planned = record { atom_id = 40; body_digest = 40; canonical_size_bytes = 9; body = consolidated }

abbrev admitted : Selection
admitted = record {
  atoms = planned ∷ [];
  decisions =
      record {
        atom_id = 40;
        source_ids = 31 ∷ 32 ∷ 33 ∷ [];
        score = score;
        canonical_size_bytes = 9;
        disposition = selected;
      }
      ∷ [];
  bytes = 9;
}

selects : select_from poc_v1 1 nothing_selected ((score, planned) ∷ []) ≡ ok admitted
unfolding select_from
selects = refl

select_from-IsSelection_example :
    WithinBudget poc_v1 1 admitted
    × (map (λ d. d.atom_id) admitted.decisions ≡ planned.atom_id ∷ [])
select_from-IsSelection_example =
    select_from-IsSelection poc_v1 1 ((score, planned) ∷ []) admitted selects

nothing-WithinBudget : WithinBudget poc_v1 1 nothing_selected
nothing-WithinBudget = record {
  agreed = refl;
  counted = omega arith;
  totalled = refl;
  bounded = omega arith;
  small = tt;
}

select_from_total_example :
    (t : Selection) × (select_from poc_v1 1 nothing_selected ((score, planned) ∷ []) ≡ ok t)
select_from_total_example =
    select_from_total poc_v1 1 ((score, planned) ∷ []) nothing_selected
      ((31 ∷ 32 ∷ 33 ∷ [], refl), tt) (omega arith) nothing-WithinBudget
