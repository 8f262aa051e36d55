-- ===== src/Retirement/Cohort/Valid.antt =====
-- The checks of a cohort in crates/naome-memory-core/src/retirement.rs against what a cohort is.
use naome_memory.Base.{
  ℕ, ◌+◌, ◌/◌, ◌<◌, ◌≡◌, refl, sym, ap, ◌∙◌, subst, true, false, not, ◌||◌, List, [], ◌∷◌, Option,
  none, some, length, leb, ◌==◌, arith, All, All-map, str_eq, str_eq_iff, is_some, checked_add,
  sort_by, ||_false, not-false,
}
use naome_memory.Base.Sort.{IsSorted, sort_by-IsSorted, IsPreorder}
use naome_memory.Error.{
  ok, >>=-eq-ok, >>-eq-ok, reject_if-eq-ok, reject_if-last, ok_or-eq-ok, ok_or,
}
use naome_memory.Policy.{Policy}
use naome_memory.Atom.{
  EpisodePayload, MemoryPayload, RetentionTier, short_term, semantic_long_term, episodic_long_term,
  dual_long_term, header_only, ContentStatus, present, forgotten, corrupt, IntegrityStatus,
  complete, missing_body, missing_artifact, digest_mismatch, MemoryAtomBody, RetirementCandidate,
  AtomId,
}
use naome_memory.Externals.{Externals, hash_prefixed}
use naome_memory.Digests.{
  atom_hash_domain, body_bytes, checked_total, retained_sizes, byte_total_overflowed,
}
use naome_memory.Digests.Sizes.{sum, checked_total-eq-sum}
use naome_memory.Validation.{validate_memory_atom_body}
use naome_memory.Validation.Spec.{IsAtom}
use naome_memory.Validation.Sound.{validate_memory_atom_body-IsAtom}
use naome_memory.Retirement.Types.{RetirementSnapshot}
use naome_memory.Retirement.Cohort.{
  microseconds_per_day, is_short_term, is_present, is_complete, is_episode_payload,
  validate_candidate_scope, is_previous, validate_lifecycle, validate_content, validate_retiring,
  validate_from, validate_candidates, by_atom_id,
}

same : (a b : ℕ) → not (a == b) ≡ false → a ≡ b
same a b h = ground arith

added : (a b : ℕ) {c : ℕ} → checked_add a b ≡ some c → c ≡ a + b
added a b {c} h = ground arith

absent : {A : Type 0} (o : Option A) → is_some o ≡ false → o ≡ none
absent none h = refl
absent (some a) h = cc

is_short_term-eq : (tier : RetentionTier) → is_short_term tier ≡ true → tier ≡ short_term
is_short_term-eq short_term h = refl
is_short_term-eq semantic_long_term h = cc
is_short_term-eq episodic_long_term h = cc
is_short_term-eq dual_long_term h = cc
is_short_term-eq header_only h = cc

is_present-eq : (status : ContentStatus) → is_present status ≡ true → status ≡ present
is_present-eq present h = refl
is_present-eq forgotten h = cc
is_present-eq corrupt h = cc

is_complete-eq : (integrity : IntegrityStatus) → is_complete integrity ≡ true → integrity ≡ complete
is_complete-eq complete h = refl
is_complete-eq missing_body h = cc
is_complete-eq missing_artifact h = cc
is_complete-eq digest_mismatch h = cc

is_episode_payload-eq :
    (payload : MemoryPayload)
    → is_episode_payload payload ≡ true
    → (e : EpisodePayload) × (payload ≡ MemoryPayload.episode e)
is_episode_payload-eq (MemoryPayload.episode e) h = (e, refl)
is_episode_payload-eq (MemoryPayload.semantic s) h = cc

by_atom_id-IsPreorder : IsPreorder by_atom_id
by_atom_id-IsPreorder = record { le_total = λ a b. ground arith; le_trans = λ a b c. ground arith }

module _ (ext : Externals) (snapshot : RetirementSnapshot) (policy : Policy) where
  -- A candidate may retire with the cohort.
  pub record IsRetiring (candidate : RetirementCandidate) : Type 0 where
    pub unretired : candidate.state.retention_tier ≡ short_term
    pub stored : candidate.state.content_status ≡ present
    pub unbound : candidate.state.retirement_run_id ≡ none
    pub current : candidate.state.superseded_by ≡ none
    pub whole : candidate.integrity ≡ complete
    pub body : MemoryAtomBody
    pub held : candidate.body ≡ some body
    pub atom : IsAtom ext policy body
    pub episode : (payload : EpisodePayload) × (body.payload ≡ MemoryPayload.episode payload)
    pub scoped : body.scope.memory_space_id ≡ snapshot.memory_space_id
    pub expiry :
        candidate.state.expires_at_us ≡ some (body.interval.recorded_at_us + policy.stm_horizon_us)
    pub due :
        (body.interval.recorded_at_us + policy.stm_horizon_us) / 86_400_000_000
        ≡ snapshot.cohort_day
    pub bytes : List ℕ
    pub encoded : body_bytes ext body ≡ ok bytes
    pub named : hash_prefixed ext atom_hash_domain bytes ≡ candidate.atom_id
    pub digested : candidate.body_digest ≡ candidate.atom_id
    pub packaged : candidate.exact_package_bytes ≡ length bytes + sum (retained_sizes body)

  record HasLifecycle (candidate : RetirementCandidate) (expires_at_us : ℕ) : Type 0 where
    unretired : candidate.state.retention_tier ≡ short_term
    stored : candidate.state.content_status ≡ present
    unbound : candidate.state.retirement_run_id ≡ none
    current : candidate.state.superseded_by ≡ none
    whole : candidate.integrity ≡ complete
    expires : candidate.state.expires_at_us ≡ some expires_at_us
    due : expires_at_us / microseconds_per_day ≡ snapshot.cohort_day
    digested : candidate.body_digest ≡ candidate.atom_id

  validate_lifecycle-HasLifecycle :
      (candidate : RetirementCandidate) {expires_at_us : ℕ}
      → validate_lifecycle ext snapshot policy candidate ≡ ok expires_at_us
      → HasLifecycle candidate expires_at_us
  unfolding validate_lifecycle
  validate_lifecycle-HasLifecycle candidate {expires_at_us} h =
      let (a, h₁) =
        reject_if-eq-ok
          (not (is_short_term candidate.state.retention_tier)
            || not (is_present candidate.state.content_status)
            || is_some candidate.state.retirement_run_id
            || is_some candidate.state.superseded_by)
          _ _ h in
      let (expiry, b, h₂) = >>=-eq-ok (ok_or candidate.state.expires_at_us _) _ h₁ in
      let (c, h₃) =
        reject_if-eq-ok (not (expiry / microseconds_per_day == snapshot.cohort_day)) _ _ h₂ in
      let (d, h₄) = reject_if-eq-ok (not (is_complete candidate.integrity)) _ _ h₃ in
      let (e, h₅) = reject_if-eq-ok (not (candidate.body_digest == candidate.atom_id)) _ _ h₄ in
      let (p, superseded) = ||_false _ (is_some candidate.state.superseded_by) a in
      let (q, run) = ||_false _ (is_some candidate.state.retirement_run_id) p in
      let (tier, status) = ||_false (not (is_short_term candidate.state.retention_tier)) _ q in
      subst (HasLifecycle candidate) (ok_injective h₅) (record {
        unretired = is_short_term-eq candidate.state.retention_tier (not-false _ tier);
        stored = is_present-eq candidate.state.content_status (not-false _ status);
        unbound = absent candidate.state.retirement_run_id run;
        current = absent candidate.state.superseded_by superseded;
        whole = is_complete-eq candidate.integrity (not-false _ d);
        expires = ok_or-eq-ok _ _ b;
        due = same _ _ c;
        digested = same _ _ e;
      })
    where
      ok_injective : {a b : ℕ} → ok a ≡ ok b → a ≡ b
      ok_injective e = cc

  content-IsRetiring :
      (candidate : RetirementCandidate) (body : MemoryAtomBody) (expires_at_us : ℕ)
      → candidate.body ≡ some body
      → HasLifecycle candidate expires_at_us
      → validate_content ext snapshot policy candidate body expires_at_us ≡ ok tt
      → IsRetiring candidate
  unfolding validate_content validate_candidate_scope
  content-IsRetiring candidate body expires_at_us held life h =
      let (valid, h₁) = >>-eq-ok (validate_memory_atom_body ext policy body) _ h in
      let (expected, a, h₂) =
        >>=-eq-ok (ok_or (checked_add body.interval.recorded_at_us policy.stm_horizon_us) _) _ h₁ in
      let (b, h₃) = reject_if-eq-ok (not (expires_at_us == expected)) _ _ h₂ in
      let (c, h₄) = reject_if-eq-ok (not (is_episode_payload body.payload)) _ _ h₃ in
      let (d, h₅) =
        reject_if-eq-ok (not (str_eq body.scope.memory_space_id snapshot.memory_space_id)) _ _ h₄ in
      let (bytes, e, h₆) = >>=-eq-ok (body_bytes ext body) _ h₅ in
      let (artifacts, f, h₇) =
        >>=-eq-ok (checked_total byte_total_overflowed 0 (retained_sizes body)) _ h₆ in
      let (total, g, h₈) = >>=-eq-ok (ok_or (checked_add (length bytes) artifacts) _) _ h₇ in
      let (k, l) =
        ||_false (not (total == candidate.exact_package_bytes))
          (not (hash_prefixed ext atom_hash_domain bytes == candidate.atom_id))
          (reject_if-last
            (not (total == candidate.exact_package_bytes)
              || not (hash_prefixed ext atom_hash_domain bytes == candidate.atom_id))
            _ h₈) in
      let expiry = same expires_at_us expected b ∙ added _ _ (ok_or-eq-ok _ _ a) in
      record {
        unretired = life.unretired;
        stored = life.stored;
        unbound = life.unbound;
        current = life.current;
        whole = life.whole;
        body = body;
        held = held;
        atom = validate_memory_atom_body-IsAtom ext policy body valid;
        episode = is_episode_payload-eq body.payload (not-false _ c);
        scoped = (str_eq_iff _ _).0 (not-false _ d);
        expiry = life.expires ∙ ap some expiry;
        due = ap (λ t. t / microseconds_per_day) (sym expiry) ∙ life.due;
        bytes = bytes;
        encoded = e;
        named = same _ _ l;
        digested = life.digested;
        packaged = omega (
          arith,
          same _ _ k,
          added _ _ (ok_or-eq-ok _ _ g),
          checked_total-eq-sum byte_total_overflowed 0 (retained_sizes body) f,
        );
      }

  abbrev Follows : Option AtomId → List RetirementCandidate → Type 0
  Follows previous [] = Unit
  Follows previous (c ∷ cs) = (is_previous previous c.atom_id ≡ false) × Follows (some c.atom_id) cs

  from-All :
      (previous : Option AtomId) (cs : List RetirementCandidate)
      → validate_from ext snapshot policy previous cs ≡ ok tt
      → All IsRetiring cs × Follows previous cs
  unfolding validate_from validate_retiring
  from-All previous [] h = (tt, tt)
  from-All previous (c ∷ cs) h =
      let (first, rest) = >>-eq-ok (validate_retiring ext snapshot policy previous c) _ h in
      let (fresh, h₁) = reject_if-eq-ok (is_previous previous c.atom_id) _ _ first in
      let (expires_at_us, life, h₂) = >>=-eq-ok (validate_lifecycle ext snapshot policy c) _ h₁ in
      let (body, held, h₃) = >>=-eq-ok (ok_or c.body _) _ h₂ in
      let (all, follows) = from-All (some c.atom_id) cs rest in
      (
        (
          content-IsRetiring c body expires_at_us (ok_or-eq-ok _ _ held)
              (validate_lifecycle-HasLifecycle c life) h₃,
          all,
        ),
        (fresh, follows),
      )

  -- The identifiers strictly increase.
  abbrev pub Increasing : List RetirementCandidate → Type 0
  Increasing [] = Unit
  Increasing (c ∷ cs) = All (λ d. c.atom_id < d.atom_id) cs × Increasing cs

  increasing :
      (cs : List RetirementCandidate) (previous : Option AtomId)
      → IsSorted by_atom_id cs
      → Follows previous cs
      → Increasing cs
  increasing [] previous s f = tt
  increasing (c ∷ []) previous s f = (tt, tt)
  increasing (c ∷ d ∷ ds) previous s f =
      let first : c.atom_id < d.atom_id = apart c.atom_id d.atom_id s.0.0 f.1.0 in
      let rest = increasing (d ∷ ds) (some c.atom_id) s.1 f.1 in
      ((first, All-map _ _ ds (λ x l. omega arith) rest.0), rest)
    where
      apart : (a b : ℕ) → leb a b ≡ true → (a == b) ≡ false → a < b
      apart a b h k = ground arith

  -- Candidates in the order of their identifiers that pass may all retire with the cohort, and their
  -- identifiers strictly increase.
  pub validate_candidates-IsCohort :
      (atoms : List RetirementCandidate)
      → validate_candidates ext snapshot policy (sort_by by_atom_id atoms) ≡ ok tt
      → All IsRetiring (sort_by by_atom_id atoms) × Increasing (sort_by by_atom_id atoms)
  unfolding validate_candidates
  validate_candidates-IsCohort atoms h =
      let (all, follows) = from-All none (sort_by by_atom_id atoms) h in
      (
        all,
        increasing (sort_by by_atom_id atoms) none
            (sort_by-IsSorted by_atom_id by_atom_id-IsPreorder atoms) follows,
      )
