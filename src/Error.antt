-- ===== src/Error.antt =====
-- crates/naome-memory-core/src/error.rs: the error taxonomy, and its `Result` with the `?` operator.
--
-- A `&'static str` or `String` that an error carries is its text. Digests and atom identifiers are
-- the numbers of Atom.antt.
use naome_memory.Base.{
  ℕ, String, Bool, true, false, ◌≡◌, refl, ap, List, [], ◌∷◌, Option, none, some, All,
}

pub data MemoryError : Type 0 where
  invalid_ppm : (value : ℕ) → MemoryError
  canonical_encoding : String → MemoryError
  invalid_digest : MemoryError
  empty_field : String → MemoryError
  empty_episode : MemoryError
  non_contiguous_events : (expected found : ℕ) → MemoryError
  event_scope_mismatch : (sequence : ℕ) → MemoryError
  event_time_out_of_range : (sequence : ℕ) → MemoryError
  non_monotonic_event_time : (sequence previous_at_us found_at_us : ℕ) → MemoryError
  invalid_time_interval : MemoryError
  insufficient_episode_content : MemoryError
  inline_payload_too_large : (actual maximum : ℕ) → MemoryError
  artifact_too_large : (actual maximum : ℕ) → MemoryError
  artifact_digest_mismatch : (digest : ℕ) → MemoryError
  exact_package_too_large : (actual maximum : ℕ) → MemoryError
  atom_too_large : (actual maximum : ℕ) → MemoryError
  invalid_atom_body : String → MemoryError
  undeclared_artifact_reference : (digest : ℕ) → MemoryError
  episode_requires_split : (actual target : ℕ) → MemoryError
  atom_digest_mismatch : (atom_id : ℕ) → MemoryError
  duplicate_atom : (atom_id : ℕ) → MemoryError
  invalid_retirement_candidate : (atom_id : ℕ) (reason : String) → MemoryError
  invalid_retrieval_candidate : (atom_id : ℕ) (reason : String) → MemoryError
  memory_space_mismatch : MemoryError
  cohort_too_large : (actual maximum : ℕ) → MemoryError
  empty_retirement_cohort : MemoryError
  retirement_cohort_not_closed : (as_of_us cohort_end_us : ℕ) → MemoryError
  policy_mismatch : MemoryError
  stale_plan : (expected observed : ℕ) → MemoryError
  episodic_budget_exceeded : (actual maximum : ℕ) → MemoryError
  retrieval_limit_exceeded : (requested maximum : ℕ) → MemoryError
  candidate_limit_exceeded : (actual maximum : ℕ) → MemoryError
  invalid_flashback_budget : (maximum : ℕ) → MemoryError
  repository_rejected : String → MemoryError
  invalid_apply_closure : String → MemoryError
  receipt_rejected : String → MemoryError
  unknown_version : String → MemoryError

pub data Result {ℓ} (A : Type ℓ) : Type ℓ where
  ok : A → Result A
  err : MemoryError → Result A

-- `?`: an error returns at once.
infixl 5 ◌>>=◌
abbrev pub ◌>>=◌ {ℓ κ} : {A : Type ℓ} {B : Type κ} → Result A → (A → Result B) → Result B
err error >>= next = err error
ok value >>= next = next value

-- `?` on a step without a value.
infixl 5 ◌>>◌
abbrev pub ◌>>◌ {ℓ} : {B : Type ℓ} → Result (Unit {0}) → Result B → Result B
step >> rest = step >>= λ _. rest

-- `if test { return Err(e); }`
abbrev pub reject_if : Bool → MemoryError → Result (Unit {0})
reject_if true e = err e
reject_if false e = ok tt

-- `option.ok_or(e)`
abbrev pub ok_or {ℓ} : {A : Type ℓ} → Option A → MemoryError → Result A
ok_or none e = err e
ok_or (some a) e = ok a

module _ {A : Type 0} where
  -- `for x in xs { f(x)?; }`
  unfoldable pub each : (A → Result (Unit {0})) → List A → Result (Unit {0})
  each f [] = ok tt
  each f (x ∷ xs) = f x >> each f xs

  -- `xs.iter().map(f).collect::<Result<Vec<_>>>()`
  unfoldable pub traverse {κ} : {B : Type κ} → (A → Result B) → List A → Result (List B)
  traverse f [] = ok []
  traverse f (x ∷ xs) = do y ← f x; ys ← traverse f xs; ok (y ∷ ys)

-- What a sequence that succeeds says of its first step: it succeeded, with a value that the rest took.
module _ {ℓ κ} {A : Type ℓ} {B : Type κ} where
  pub >>=-eq-ok :
      (step : Result A) (next : A → Result B) {result : B}
      → (step >>= next) ≡ ok result
      → (value : A) × (step ≡ ok value) × (next value ≡ ok result)
  >>=-eq-ok (err error) next h = cc
  >>=-eq-ok (ok value) next h = (value, refl, h)

pub >>-eq-ok {ℓ} :
    {B : Type ℓ} (m : Result (Unit {0})) (k : Result B) {b : B}
    → (m >> k) ≡ ok b
    → (m ≡ ok tt) × (k ≡ ok b)
>>-eq-ok (ok tt) k h = (refl, h)
>>-eq-ok (err e) k h = cc

-- A passed check was false, and the rest succeeded.
pub reject_if-eq-ok {ℓ} :
    {B : Type ℓ} (test : Bool) (e : MemoryError) (k : Result B) {b : B}
    → (reject_if test e >> k) ≡ ok b
    → (test ≡ false) × (k ≡ ok b)
reject_if-eq-ok true e k h = cc
reject_if-eq-ok false e k h = (refl, h)

pub ok_or-eq-ok {ℓ} :
    {A : Type ℓ} (o : Option A) (e : MemoryError) {a : A} → ok_or o e ≡ ok a → o ≡ some a
ok_or-eq-ok none e h = cc
ok_or-eq-ok (some a) e h = cc

module _ {A : Type 0} (f : A → Result (Unit {0})) where
  pub each-All : (xs : List A) → each f xs ≡ ok tt → All (λ x. f x ≡ ok tt) xs
  unfolding each
  each-All [] h = tt
  each-All (x ∷ xs) h = let (p, q) = >>-eq-ok (f x) (each f xs) h in (p, each-All xs q)

  pub each-of_All : (xs : List A) → All (λ x. f x ≡ ok tt) xs → each f xs ≡ ok tt
  unfolding each
  each-of_All [] h = refl
  each-of_All (x ∷ xs) h = rw h.0 (each-of_All xs h.1)

pub err-ne-ok {ℓ} : {A : Type ℓ} {e : MemoryError} {a : A} → err e ≡ ok a → ⊥
err-ne-ok h = cc

pub reject_if-last : (test : Bool) (e : MemoryError) → reject_if test e ≡ ok tt → test ≡ false
reject_if-last true e h = cc
reject_if-last false e h = refl

pub ok_inj {ℓ} : {A : Type ℓ} {a b : A} → ok a ≡ ok b → a ≡ b
ok_inj {A} {a} e = ap (λ r. elim r [ ok x ↦ x | err _ ↦ a ]) e

pub err_inj {ℓ} : {A : Type ℓ} {d e : MemoryError} → ◌≡◌ {A = Result A} (err d) (err e) → d ≡ e
err_inj {A} {d} p = ap (λ (r : Result A). elim r [ ok x ↦ d | err x ↦ x ]) p
