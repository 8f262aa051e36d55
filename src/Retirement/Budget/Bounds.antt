-- ===== src/Retirement/Budget/Bounds.antt =====
-- Budgets and decisions of the selection in crates/naome-memory-core/src/retirement.rs.
use naome_memory.Base.{
  ℕ, ◌+◌, ◌≤◌, ◌<◌, ◌≡◌, refl, sym, ap, ◌∙◌, subst, List, [], ◌∷◌, ◌++◌, false, some, ltb, leb,
  length, checked_add, if◌then◌else◌, arith, All, All-append, map, length-append, filterb,
  Bool-cases, inl, inr, ◌⊎◌, u64_mod,
}
use mathlib.Core.List.{append_assoc, append-nil, map-append}
use naome_memory.Error.{ok, >>=-eq-ok, ok_inj}
use naome_memory.Policy.{Policy}
use naome_memory.Atom.{AtomId, ConsolidationScore}
use naome_memory.Digests.Sizes.{sum}
use naome_memory.Retirement.Types.{
  PlannedSemanticAtom, SemanticCandidateDisposition, selected, SemanticCandidateDecision,
  skipped_atom_hard_limit, skipped_count_budget, skipped_byte_budget,
}
use naome_memory.Retirement.Budget.{
  semantic_candidate_disposition, payload_sources, is_selected, Selection, decide_candidate,
  consider, select_from, nothing_selected,
}

abbrev pub sizes : List PlannedSemanticAtom → List ℕ
sizes atoms = map (λ a. a.canonical_size_bytes) atoms

sum-snoc : (ns : List ℕ) (n : ℕ) → sum (ns ++ n ∷ []) ≡ sum ns + n
sum-snoc [] n = omega arith
sum-snoc (m ∷ ms) n = omega (arith, sum-snoc ms n)

sizes-snoc :
    (atoms : List PlannedSemanticAtom) (a : PlannedSemanticAtom)
    → sum (sizes (atoms ++ a ∷ [])) ≡ sum (sizes atoms) + a.canonical_size_bytes
sizes-snoc [] a = omega arith
sizes-snoc (b ∷ bs) a = omega (arith, sizes-snoc bs a)

-- What a disposition says: a selected candidate fits all three limits and adds its size, and any other
-- adds nothing.
pub disposition_cases :
    (policy : Policy) (candidate_bytes selected_count count_budget selected_bytes : ℕ)
    (d : SemanticCandidateDisposition) (bytes : ℕ)
    → semantic_candidate_disposition candidate_bytes selected_count count_budget selected_bytes
        policy
      ≡ ok (d, bytes)
    → ((d ≡ selected)
        × (candidate_bytes ≤ policy.atom_hard_max_bytes)
        × (selected_count < count_budget)
        × (bytes ≡ selected_bytes + candidate_bytes)
        × (bytes ≤ policy.semantic_body_budget_bytes))
      ⊎ ((is_selected d ≡ false) × (bytes ≡ selected_bytes))
unfolding semantic_candidate_disposition
disposition_cases policy candidate_bytes selected_count count_budget selected_bytes d bytes h =
    ground arith

-- The identifiers of the decisions that selected.
abbrev pub selected_ids : List SemanticCandidateDecision → List AtomId
selected_ids decisions = map (λ d. d.atom_id) (filterb (λ d. is_selected d.disposition) decisions)

selected_ids-snoc :
    (ds : List SemanticCandidateDecision) (d : SemanticCandidateDecision)
    → selected_ids (ds ++ d ∷ [])
      ≡ (if is_selected d.disposition then selected_ids ds ++ d.atom_id ∷ [] else selected_ids ds)
selected_ids-snoc [] d = ground arith
selected_ids-snoc (e ∷ es) d = ground (arith, selected_ids-snoc es d)

skipped :
    (ds : List SemanticCandidateDecision) (d : SemanticCandidateDecision)
    → is_selected d.disposition ≡ false
    → selected_ids (ds ++ d ∷ []) ≡ selected_ids ds
skipped ds d e = selected_ids-snoc ds d ∙ (rw e refl)

map-snoc :
    (atoms : List PlannedSemanticAtom) (a : PlannedSemanticAtom)
    → map (λ b. b.atom_id) (atoms ++ a ∷ []) ≡ map (λ b. b.atom_id) atoms ++ a.atom_id ∷ []
map-snoc atoms a = map-append (λ b. b.atom_id) atoms (a ∷ [])

module _ (policy : Policy) (count_budget : ℕ) where
  -- The budgets hold, and the running total is the size of what is selected.
  pub record WithinBudget (s : Selection) : Type 0 where
    pub agreed : map (λ a. a.atom_id) s.atoms ≡ selected_ids s.decisions
    pub counted : length s.atoms ≤ count_budget
    pub totalled : s.bytes ≡ sum (sizes s.atoms)
    pub bounded : s.bytes ≤ policy.semantic_body_budget_bytes
    pub small : All (λ a. a.canonical_size_bytes ≤ policy.atom_hard_max_bytes) s.atoms

  decided :
      (s : Selection) (candidate : ConsolidationScore × PlannedSemanticAtom)
      (source_ids : List AtomId) (d : SemanticCandidateDisposition) (bytes : ℕ)
      → WithinBudget s
      → ((d ≡ selected)
          × (candidate.1.canonical_size_bytes ≤ policy.atom_hard_max_bytes)
          × (length s.atoms < count_budget)
          × (bytes ≡ s.bytes + candidate.1.canonical_size_bytes)
          × (bytes ≤ policy.semantic_body_budget_bytes))
        ⊎ ((is_selected d ≡ false) × (bytes ≡ s.bytes))
      → WithinBudget (decide_candidate s candidate source_ids (d, bytes))
  decided s (score, semantic) source_ids d bytes w (inl (e, fits, room, grown, bounded)) =
      rw e (record {
        agreed =
            map-snoc s.atoms semantic
            ∙ ap (λ ids. ids ++ semantic.atom_id ∷ []) w.agreed
            ∙ sym (selected_ids-snoc s.decisions _);
        counted = omega (arith, length-append s.atoms (semantic ∷ []));
        totalled = omega (arith, sizes-snoc s.atoms semantic, w.totalled);
        bounded = bounded;
        small = All-append _ s.atoms (semantic ∷ []) w.small (fits, tt);
      })
  decided s (score, semantic) source_ids d bytes w (inr (e, same)) = rw e (record {
    agreed = w.agreed ∙ sym (skipped s.decisions _ e);
    counted = w.counted;
    totalled = same ∙ w.totalled;
    bounded = subst (λ n. n ≤ policy.semantic_body_budget_bytes) (sym same) w.bounded;
    small = w.small;
  })

  consider-WithinBudget :
      (s : Selection) (candidate : ConsolidationScore × PlannedSemanticAtom) (t : Selection)
      → WithinBudget s
      → consider policy count_budget s candidate ≡ ok t
      → WithinBudget t
  unfolding consider
  consider-WithinBudget s (score, semantic) t w h =
      let (source_ids, _, h₁) = >>=-eq-ok (payload_sources semantic.body.payload) _ h in
      let ((d, bytes), disposed, h₂) =
        >>=-eq-ok
          (semantic_candidate_disposition semantic.canonical_size_bytes (length s.atoms)
            count_budget s.bytes policy)
          _ h₁ in
      subst WithinBudget (ok_inj h₂) (
        decided s (score, semantic) source_ids d bytes w
          (disposition_cases policy semantic.canonical_size_bytes (length s.atoms) count_budget
            s.bytes d bytes disposed))

  pub select_from-WithinBudget :
      (candidates : List (ConsolidationScore × PlannedSemanticAtom)) (s t : Selection)
      → WithinBudget s
      → select_from policy count_budget s candidates ≡ ok t
      → WithinBudget t
  unfolding select_from
  select_from-WithinBudget [] s t w h = subst WithinBudget (ok_inj h) w
  select_from-WithinBudget (candidate ∷ candidates) s t w h =
      let (next, considered, rest) = >>=-eq-ok (consider policy count_budget s candidate) _ h in
      select_from-WithinBudget candidates next t
        (consider-WithinBudget s candidate next w considered) rest

  decisions-snoc :
      (ds : List SemanticCandidateDecision) (d : SemanticCandidateDecision)
      → map (λ d. d.atom_id) (ds ++ d ∷ []) ≡ map (λ d. d.atom_id) ds ++ d.atom_id ∷ []
  decisions-snoc ds d = map-append (λ d. d.atom_id) ds (d ∷ [])

  consider-decides :
      (s : Selection) (candidate : ConsolidationScore × PlannedSemanticAtom) (t : Selection)
      → consider policy count_budget s candidate ≡ ok t
      → map (λ d. d.atom_id) t.decisions
        ≡ map (λ d. d.atom_id) s.decisions ++ candidate.1.atom_id ∷ []
  unfolding consider
  consider-decides s (score, semantic) t h =
      let (source_ids, _, h₁) = >>=-eq-ok (payload_sources semantic.body.payload) _ h in
      let ((d, bytes), disposed, h₂) =
        >>=-eq-ok
          (semantic_candidate_disposition semantic.canonical_size_bytes (length s.atoms)
            count_budget s.bytes policy)
          _ h₁ in
      ap (λ u. map (λ d. d.atom_id) u.decisions) (sym (ok_inj h₂)) ∙ decisions-snoc s.decisions _

  select_from-decides :
      (candidates : List (ConsolidationScore × PlannedSemanticAtom)) (s t : Selection)
      → select_from policy count_budget s candidates ≡ ok t
      → map (λ d. d.atom_id) t.decisions
        ≡ map (λ d. d.atom_id) s.decisions ++ map (λ c. c.1.atom_id) candidates
  unfolding select_from
  select_from-decides [] s t h =
      ap (λ u. map (λ d. d.atom_id) u.decisions) (sym (ok_inj h)) ∙ sym (append-nil _)
  select_from-decides (candidate ∷ candidates) s t h =
      let (next, considered, rest) = >>=-eq-ok (consider policy count_budget s candidate) _ h in
      select_from-decides candidates next t rest
      ∙ ap (λ ids. ids ++ map (λ c. c.1.atom_id) candidates)
          (consider-decides s candidate next considered)
      ∙ append_assoc (map (λ d. d.atom_id) s.decisions) (candidate.1.atom_id ∷ [])
          (map (λ c. c.1.atom_id) candidates)

  -- A selection that returns has decided each candidate once, in the order of the candidates; the atoms
  -- that it selects are those whose decision says so, at most as many as the count budget, each within
  -- the size limit of an atom, and the total that it reports is their sizes' sum, within the byte budget.
  pub select_from-IsSelection :
      (candidates : List (ConsolidationScore × PlannedSemanticAtom)) (t : Selection)
      → select_from policy count_budget nothing_selected candidates ≡ ok t
      → WithinBudget t × (map (λ d. d.atom_id) t.decisions ≡ map (λ c. c.1.atom_id) candidates)
  select_from-IsSelection candidates t h = (
    select_from-WithinBudget candidates nothing_selected t
        (record {
          agreed = refl;
          counted = omega arith;
          totalled = refl;
          bounded = omega arith;
          small = tt;
        })
        h,
    select_from-decides candidates nothing_selected t h,
  )

  disposition_total :
      (candidate_bytes selected_count selected_bytes : ℕ)
      → policy.semantic_body_budget_bytes + policy.atom_hard_max_bytes < u64_mod
      → selected_bytes ≤ policy.semantic_body_budget_bytes
      → (r : SemanticCandidateDisposition × ℕ) × (semantic_candidate_disposition candidate_bytes
            selected_count count_budget selected_bytes policy
          ≡ ok r)
  unfolding semantic_candidate_disposition
  disposition_total candidate_bytes selected_count selected_bytes fits small =
      elim (Bool-cases (ltb policy.atom_hard_max_bytes candidate_bytes)) [
        | inl e ↦ ((skipped_atom_hard_limit, selected_bytes), rw e refl)
        | inr e ↦ elim (Bool-cases (leb count_budget selected_count)) [
          | inl f ↦ ((skipped_count_budget, selected_bytes), rw (e, f) refl)
          | inr f ↦
              let sum : checked_add selected_bytes candidate_bytes
                  ≡ some (selected_bytes + candidate_bytes) =
                ground arith in
              (
                (if ltb policy.semantic_body_budget_bytes (selected_bytes + candidate_bytes)
                    then (skipped_byte_budget, selected_bytes)
                    else (selected, selected_bytes + candidate_bytes)),
                rw (e, f, sum) refl,
              )
        ]
      ]

  consider_total :
      (s : Selection) (candidate : ConsolidationScore × PlannedSemanticAtom) (ids : List AtomId)
      → payload_sources candidate.1.body.payload ≡ ok ids
      → policy.semantic_body_budget_bytes + policy.atom_hard_max_bytes < u64_mod
      → WithinBudget s
      → (t : Selection) × (consider policy count_budget s candidate ≡ ok t)
  unfolding consider
  consider_total s (score, semantic) ids sources fits w =
      let (r, e) =
        disposition_total semantic.canonical_size_bytes (length s.atoms) s.bytes fits w.bounded in
      (decide_candidate s (score, semantic) ids r, rw (sources, e) refl)

  -- From a selection within the budgets, a selection returns, if the candidates have semantic payloads,
  -- and the byte budget and the size limit of an atom add up to less than 2^64.
  pub select_from_total :
      (candidates : List (ConsolidationScore × PlannedSemanticAtom)) (s : Selection)
      → All (λ c. (ids : List AtomId) × (payload_sources c.1.body.payload ≡ ok ids)) candidates
      → policy.semantic_body_budget_bytes + policy.atom_hard_max_bytes < u64_mod
      → WithinBudget s
      → (t : Selection) × (select_from policy count_budget s candidates ≡ ok t)
  unfolding select_from
  select_from_total [] s h fits w = (s, refl)
  select_from_total (candidate ∷ candidates) s ((ids, sources), rest) fits w =
      let (next, considered) = consider_total s candidate ids sources fits w in
      let (t, e) =
        select_from_total candidates next rest fits
          (consider-WithinBudget s candidate next w considered) in
      (t, rw considered e)
