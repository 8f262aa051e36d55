-- ===== src/Seal/Stream.antt =====
-- crates/naome-memory-core/src/seal.rs: the stream of events that `validate_episode_input` accepts.
use naome_memory.Base.{
  ℕ, suc, ◌≤◌, ◌<◌, ◌≡◌, ◌≢◌, ◌⊎◌, refl, ap, inl, inr, String, Bool, true, false, not, ◌&&◌, ◌||◌,
  List, [], ◌∷◌, Option, none, some, ltb, ◌==◌, str_eq_iff, str_empty, anyb, is_nil, is_some,
  checked_add, arith, u64_max, not-false, &&_true, subst,
}
use naome_memory.Error.{ok, >>=-eq-ok, >>-eq-ok, reject_if-eq-ok, reject_if-last, ok_or-eq-ok}
use naome_memory.Policy.{Policy}
use naome_memory.Atom.{MemoryScope, Outcome, FeedbackSignal}
use naome_memory.Externals.{Externals}
use naome_memory.Validation.{validate_scope}
use naome_memory.Validation.Spec.{IsScope}
use naome_memory.Validation.Parts.{validate_scope-IsScope, not_empty}
use naome_memory.Seal.Types.{EpisodeEvent, EpisodeBuffer, SealEpisodeRequest}
use naome_memory.Seal.Input.{
  same_text, same_scope, validate_order, validate_event, validate_events, validate_episode_input,
  first_sequence, is_substantive, validate_request_artifacts,
}

same_text-eq : (a b : Option String) → same_text a b ≡ true → a ≡ b
same_text-eq none none h = refl
same_text-eq none (some b) h = cc
same_text-eq (some a) none h = cc
same_text-eq (some a) (some b) h = ap some ((str_eq_iff a b).0 h)

scope_eq :
    (a b : MemoryScope)
    → a.memory_space_id ≡ b.memory_space_id
    → a.repository_id ≡ b.repository_id
    → a.task_id ≡ b.task_id
    → a.agent_id ≡ b.agent_id
    → a.session_id ≡ b.session_id
    → a ≡ b
scope_eq a b p q r s t = cc

same_scope-eq : (a b : MemoryScope) → same_scope a b ≡ true → a ≡ b
unfolding same_scope
same_scope-eq a b h =
    let (p, h₁) = &&_true _ _ h in
    let (q, h₂) = &&_true _ _ h₁ in
    let (r, h₃) = &&_true _ _ h₂ in
    let (s, t) = &&_true _ _ h₃ in
    scope_eq a b ((str_eq_iff _ _).0 p) (same_text-eq _ _ q) (same_text-eq _ _ r)
      (same_text-eq _ _ s) ((str_eq_iff _ _).0 t)

not_nil : (xs : List EpisodeEvent) → is_nil xs ≡ false → xs ≢ []
not_nil [] h = cc
not_nil (x ∷ xs) h = λ e. cc

in_order :
    (started ended recorded : ℕ)
    → (ltb ended started || ltb recorded ended) ≡ false
    → (started ≤ ended) × (ended ≤ recorded)
in_order started ended recorded h = ground arith

filled :
    (substantive : Bool) (outcome : Option Outcome) (feedback : List FeedbackSignal)
    → (not substantive && (not (is_some outcome) && is_nil feedback)) ≡ false
    → (substantive ≡ true) ⊎ ((outcome ≢ none) ⊎ (feedback ≢ []))
filled true outcome feedback h = inl refl
filled false (some o) feedback h = inr (inl (λ e. cc))
filled false none (f ∷ fs) h = inr (inr (λ e. cc))
filled false none [] h = cc

module _ (buffer : EpisodeBuffer) (request : SealEpisodeRequest) where
  -- Events one after another: consecutive sequences in 64 bits, the scope of the buffer, and times that do
  -- not go back, from `earliest` on, up to the end of the episode.
  abbrev pub IsStream : ℕ → ℕ → List EpisodeEvent → Type 0
  IsStream sequence earliest [] = Unit
  IsStream sequence earliest (event ∷ events) =
      (event.sequence ≡ sequence)
      × (sequence < u64_max)
      × (event.scope ≡ buffer.scope)
      × (earliest ≤ event.at_us)
      × (event.at_us ≤ request.ended_at_us)
      × IsStream (suc sequence) event.at_us events

  -- The time from which the next event may be.
  abbrev pub earliest_after : Option ℕ → ℕ
  earliest_after none = buffer.started_at_us
  earliest_after (some previous_at_us) = previous_at_us

  validate_event-step :
      (sequence next : ℕ) (previous_at_us : Option ℕ) (event : EpisodeEvent)
      → validate_event buffer request sequence previous_at_us event ≡ ok next
      → (event.sequence ≡ sequence)
        × (sequence < u64_max)
        × (event.scope ≡ buffer.scope)
        × (earliest_after previous_at_us ≤ event.at_us)
        × (event.at_us ≤ request.ended_at_us)
        × (next ≡ suc sequence)
  unfolding validate_event
  validate_event-step sequence next previous_at_us event h =
      let (a, h₁) = reject_if-eq-ok (not (event.sequence == sequence)) _ _ h in
      let (b, h₂) = reject_if-eq-ok (not (same_scope event.scope buffer.scope)) _ _ h₁ in
      let (c, h₃) =
        reject_if-eq-ok
          (ltb event.at_us buffer.started_at_us || ltb request.ended_at_us event.at_us) _ _ h₂ in
      let (d, h₄) = >>-eq-ok (validate_order previous_at_us event) _ h₃ in
      let e = ok_or-eq-ok (checked_add sequence 1) _ h₄ in
      (
        numbered event.sequence sequence a,
        (counted sequence next e).1,
        same_scope-eq event.scope buffer.scope (not-false _ b),
        ordered previous_at_us (timed event.at_us _ _ c).0 d,
        (timed event.at_us _ _ c).1,
        (counted sequence next e).0,
      )
    where
      numbered : (a b : ℕ) → not (a == b) ≡ false → a ≡ b
      numbered a b h = ground arith

      counted : (a b : ℕ) → checked_add a 1 ≡ some b → (b ≡ suc a) × (a < u64_max)
      counted a b h = ground arith

      timed : (a b c : ℕ) → (ltb a b || ltb c a) ≡ false → (b ≤ a) × (a ≤ c)
      timed a b c h = ground arith

      not_before : (a b : ℕ) → ltb a b ≡ false → b ≤ a
      not_before a b h = ground arith

      ordered :
          (o : Option ℕ)
          → buffer.started_at_us ≤ event.at_us
          → validate_order o event ≡ ok tt
          → earliest_after o ≤ event.at_us
      ordered none started h = started
      ordered (some p) started h = not_before event.at_us p (reject_if-last _ _ h)

  validate_events-IsStream :
      (events : List EpisodeEvent) (sequence : ℕ) (previous_at_us : Option ℕ)
      → validate_events buffer request sequence previous_at_us events ≡ ok tt
      → IsStream sequence (earliest_after previous_at_us) events
  unfolding validate_events
  validate_events-IsStream [] sequence previous_at_us h = tt
  validate_events-IsStream (event ∷ events) sequence previous_at_us h =
      let (next, a, h₁) =
        >>=-eq-ok (validate_event buffer request sequence previous_at_us event) _ h in
      let (same, few, scope, order, ended, e) =
        validate_event-step sequence next previous_at_us event a in
      (
        same,
        few,
        scope,
        order,
        ended,
        subst (λ n. IsStream n event.at_us events) e
            (validate_events-IsStream events next (some event.at_us) h₁),
      )

-- A request and a buffer that make an episode.
pub record IsEpisodeInput (buffer : EpisodeBuffer) (request : SealEpisodeRequest) : Type 0 where
  pub scoped : IsScope buffer.scope
  pub triggered : request.trigger ≢ ""
  pub present : buffer.events ≢ []
  pub started : buffer.started_at_us ≤ request.ended_at_us
  pub ended : request.ended_at_us ≤ request.as_of_us
  pub stream :
      IsStream buffer request (first_sequence buffer.events) buffer.started_at_us buffer.events
  pub substantive :
      (anyb is_substantive buffer.events ≡ true)
      ⊎ ((request.outcome ≢ none) ⊎ (request.feedback ≢ []))

module _ (ext : Externals) (policy : Policy) where
  -- An input that `validate_episode_input` accepts has a scope, a trigger and an event; it ends no earlier
  -- than it starts and no later than it is recorded; its events have consecutive sequences below the
  -- largest 64-bit number, the scope of the buffer, and times in order between the start and the end; and
  -- one of them is substantive, or there is an outcome or feedback.
  pub validate_episode_input-IsEpisodeInput :
      (buffer : EpisodeBuffer) (request : SealEpisodeRequest)
      → validate_episode_input ext policy buffer request ≡ ok tt
      → IsEpisodeInput buffer request
  unfolding validate_episode_input
  validate_episode_input-IsEpisodeInput buffer request h =
      let (a, h₁) = >>-eq-ok (validate_scope buffer.scope) _ h in
      let (b, h₂) = reject_if-eq-ok (str_empty request.trigger) _ _ h₁ in
      let (c, h₃) = reject_if-eq-ok (is_nil buffer.events) _ _ h₂ in
      let (d, h₄) =
        reject_if-eq-ok
          (ltb request.ended_at_us buffer.started_at_us || ltb request.as_of_us request.ended_at_us)
          _ _ h₃ in
      let (e, h₅) =
        >>-eq-ok (validate_events buffer request (first_sequence buffer.events) none buffer.events)
          _ h₄ in
      let (f, h₆) = >>-eq-ok (validate_request_artifacts ext policy request.artifacts) _ h₅ in
      let (started, ended) = in_order _ _ _ d in
      record {
        scoped = validate_scope-IsScope buffer.scope a;
        triggered = not_empty request.trigger b;
        present = not_nil buffer.events c;
        started = started;
        ended = ended;
        stream = validate_events-IsStream buffer request buffer.events _ none e;
        substantive = filled _ request.outcome request.feedback (reject_if-last _ _ h₆);
      }
