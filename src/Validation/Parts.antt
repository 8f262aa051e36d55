-- ===== src/Validation/Parts.antt =====
-- What each group of checks of crates/naome-memory-core/src/validation.rs leaves true.
use naome_memory.Base.{
  ℕ, ◌≡◌, ◌≢◌, refl, sym, ap, ◌∙◌, String, List, [], ◌∷◌, Option, none, some, map, length, All,
  arith, false, ◌||◌, str_empty, str_eq_iff, ||_false, ltb, anyb, anyb-false, set_contains, is_eq,
  nat_ord, set_insert,
}
use naome_memory.Base.Sets.{Distinct, set_contains-insert}
use naome_memory.Error.{ok, reject_if-eq-ok, reject_if-last, >>-eq-ok}
use naome_memory.Policy.{Policy}
use naome_memory.Atom.{Digest32, MemoryScope, MemoryAtomBody, ArtifactRef, Observation}
use naome_memory.Externals.{Externals}
use naome_memory.Validation.{
  blank, validate_scope, validate_inline, validate_inline_payload, validate_artifact,
  validate_artifacts_from, validate_observations,
}
use naome_memory.Validation.Spec.{IsScope, IsArtifact, InlineCloses, IsObservation}

pub not_empty : (text : String) → str_empty text ≡ false → text ≢ ""
not_empty text h e = cc ((str_eq_iff text "").1 e)

not_blank : (o : Option String) → blank o ≡ false → o ≢ some ""
not_blank none h e = cc
not_blank (some text) h e = not_empty text h (ap (λ o. elim o [ none ↦ text | some t ↦ t ]) e)

pub validate_scope-IsScope : (scope : MemoryScope) → validate_scope scope ≡ ok tt → IsScope scope
unfolding validate_scope
validate_scope-IsScope scope h =
    let (a, h₁) = reject_if-eq-ok (str_empty scope.memory_space_id) _ _ h in
    let (b, h₂) = reject_if-eq-ok (str_empty scope.session_id) _ _ h₁ in
    let (c, h₃) = reject_if-eq-ok (blank scope.repository_id) _ _ h₂ in
    let (d, h₄) = reject_if-eq-ok (blank scope.task_id) _ _ h₃ in
    record {
      space = not_empty _ a;
      session = not_empty _ b;
      repository = not_blank _ c;
      task = not_blank _ d;
      agent = not_blank _ (reject_if-last _ _ h₄);
    }

-- A digest that was inserted before the rest was seen stands in none of the rest.
unseen_apart :
    (digest : Digest32) (seen : List Digest32) (artifacts : List ArtifactRef)
    → All (λ a. set_contains a.digest (set_insert digest seen) ≡ false) artifacts
    → (set_contains digest (map (λ a. a.digest) artifacts) ≡ false)
      × All (λ a. set_contains a.digest seen ≡ false) artifacts
unseen_apart digest seen [] h = (refl, tt)
unseen_apart digest seen (a ∷ artifacts) h =
    let (apart, unseen) = unseen_apart digest seen artifacts h.1 in
    let first = set_contains-insert a.digest digest seen in
    let split =
      ||_false (is_eq (nat_ord.cmp a.digest digest)) (set_contains a.digest seen)
        (sym first ∙ h.0) in
    (ground (arith, split.0), (split.1, unseen))

module _ (ext : Externals) (policy : Policy) where
  inline-InlineCloses :
      (artifact : ArtifactRef) (inline : List ℕ)
      → validate_inline ext policy artifact inline ≡ ok tt
      → InlineCloses ext policy artifact (some inline)
  unfolding validate_inline
  inline-InlineCloses artifact inline h =
      let (a, h₁) = reject_if-eq-ok (ltb policy.inline_payload_max_bytes (length inline)) _ _ h in
      let b = reject_if-last _ _ h₁ in ground arith

  inline_payload-InlineCloses :
      (artifact : ArtifactRef) (o : Option (List ℕ))
      → validate_inline_payload ext policy artifact o ≡ ok tt
      → InlineCloses ext policy artifact o
  unfolding validate_inline_payload
  inline_payload-InlineCloses artifact none e = tt
  inline_payload-InlineCloses artifact (some inline) e = inline-InlineCloses artifact inline e

  validate_artifact-IsArtifact :
      (artifact : ArtifactRef)
      → validate_artifact ext policy artifact ≡ ok tt
      → IsArtifact ext policy artifact
  unfolding validate_artifact
  validate_artifact-IsArtifact artifact h =
      let (a, h₁) = reject_if-eq-ok (str_empty artifact.media_type) _ _ h in
      let (b, h₂) = reject_if-eq-ok (ltb policy.artifact_max_bytes artifact.size_bytes) _ _ h₁ in
      record {
        typed = not_empty _ a;
        bounded = ground arith;
        closes = inline_payload-InlineCloses artifact artifact.inline_payload h₂;
      }

  pub artifacts_from-All :
      (seen : List Digest32) (artifacts : List ArtifactRef)
      → validate_artifacts_from ext policy seen artifacts ≡ ok tt
      → All (IsArtifact ext policy) artifacts
        × Distinct (map (λ a. a.digest) artifacts)
        × All (λ a. set_contains a.digest seen ≡ false) artifacts
  unfolding validate_artifacts_from
  artifacts_from-All seen [] h = (tt, tt, tt)
  artifacts_from-All seen (a ∷ artifacts) h =
      let (new, h₁) = reject_if-eq-ok (set_contains a.digest seen) _ _ h in
      let (valid, h₂) = >>-eq-ok (validate_artifact ext policy a) _ h₁ in
      let (all, distinct, unseen) = artifacts_from-All (set_insert a.digest seen) artifacts h₂ in
      let (apart, old) = unseen_apart a.digest seen artifacts unseen in
      ((validate_artifact-IsArtifact a valid, all), (apart, distinct), (new, old))

  pub observations-All :
      (body : MemoryAtomBody)
      → validate_observations ext policy body ≡ ok tt
      → All (IsObservation ext policy body) body.observations
  unfolding validate_observations
  observations-All body h =
      let (a, h₁) = reject_if-eq-ok (anyb _ body.observations) _ _ h in
      let (b, h₂) = reject_if-eq-ok (anyb _ body.observations) _ _ h₁ in
      each_observation body.observations (anyb-false _ body.observations a)
        (anyb-false _ body.observations b)
    where
      each_observation :
          (os : List Observation)
          → All
              (λ o.
                (ltb o.at_us body.interval.started_at_us || ltb body.interval.ended_at_us o.at_us)
                ≡ false)
              os
          → All (λ o. (str_empty o.source || str_empty o.content) ≡ false) os
          → All (IsObservation ext policy body) os
      each_observation [] p q = tt
      each_observation (o ∷ os) p q = (
        record {
          begun = ground (arith, p.0);
          ended = ground (arith, p.0);
          sourced = not_empty _ (||_false _ _ q.0).0;
          filled = not_empty _ (||_false _ _ q.0).1;
        },
        each_observation os p.1 q.1,
      )
