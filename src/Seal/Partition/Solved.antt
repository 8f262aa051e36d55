-- ===== src/Seal/Partition/Solved.antt =====
-- crates/naome-memory-core/src/seal.rs: what the vectors of `plan_episode_ranges` hold of the starts that
-- the loop is done with.
use naome_memory.Base.{
  ℕ, suc, ◌+◌, ◌≤◌, ◌<◌, ◌≡◌, ◌∙◌, ◌⊎◌, inl, inr, Bool, List, Option, none, some, get_or, length,
  arith, refl, sym, ap, some_inj,
}
use naome_memory.Seal.Prepared.{PreparedEpisodeEvents}
use naome_memory.Seal.Routes.{RouteChoice, RouteChoices}
use naome_memory.Seal.Routes.Store.{Stores}
use naome_memory.Seal.Partition.{RouteState}
use naome_memory.Seal.Partition.Segments.{Segment}

-- The entry of a vector, `none` outside of it.
abbrev pub entry : List (Option ℕ) → ℕ → Option ℕ
entry vector i = get_or vector i none

-- What the routes hold at a boundary of so many remaining segments.
abbrev pub choice_at : Option ℕ → ℕ → Option RouteChoice
choice_at none i = none
choice_at (some m) i = some (record { remaining_segments = m; end = i })

pub choice_at-some :
    (o : Option ℕ) (i : ℕ) (c : RouteChoice)
    → choice_at o i ≡ some c
    → (o ≡ some c.remaining_segments) × (i ≡ c.end)
choice_at-some none i c h = cc
choice_at-some (some m) i c h =
    let e = some_inj h in
    (ap (λ (r : RouteChoice). some r.remaining_segments) e, ap (λ (r : RouteChoice). r.end) e)

pub choice_at-none : (o : Option ℕ) (i : ℕ) → choice_at o i ≡ none → o ≡ none
choice_at-none none i h = refl
choice_at-none (some m) i h = cc

pub Stores-ext :
    {routes : RouteChoices} (choice other : ℕ → Option RouteChoice)
    → ((i : ℕ) → choice i ≡ other i)
    → Stores routes choice
    → Stores routes other
Stores-ext choice other same s = record {
  size = s.size;
  fits = s.fits;
  room = s.room;
  tree = s.tree;
  leaves = λ i h. s.leaves i h ∙ same i;
}

module _ (prepared : PreparedEpisodeEvents) (shared : Bool)
    (first_base continued_base target : ℕ) where
  -- The next boundary after a start that reaches the end by `m` segments: no segment leads to a boundary of
  -- fewer remaining segments, nor to a later one of as many.
  pub record BestNext (remaining next : ℕ → Option ℕ) (start m : ℕ) : Type 0 where
    pub end : ℕ
    pub after : ℕ
    pub next_eq : next start ≡ some end
    pub count_eq : m ≡ suc after
    pub segment : Segment prepared shared first_base continued_base target start end
    pub after_eq : remaining end ≡ some after
    pub least :
        (other count : ℕ)
        → Segment prepared shared first_base continued_base target start other
        → remaining other ≡ some count
        → (after ≤ count) × (after ≡ count → other ≤ end)

  abbrev pub IsSolved : (ℕ → Option ℕ) → (ℕ → Option ℕ) → ℕ → Type 0
  IsSolved remaining next start =
      ((remaining start ≡ none)
        × ((end : ℕ)
            → Segment prepared shared first_base continued_base target start end
            → remaining end ≡ none))
      ⊎ ((m : ℕ) × (remaining start ≡ some m) × BestNext remaining next start m)

  -- After the starts from `from` on.
  pub record Routed (from : ℕ) (state : RouteState) : Type 0 where
    pub stored : Stores state.routes (λ i. choice_at (entry state.remaining_segments i) i)
    pub room : suc (length prepared.digests) ≤ state.routes.leaf_count
    pub remaining_length : length state.remaining_segments ≡ suc (length prepared.digests)
    pub next_length : length state.next_boundary ≡ suc (length prepared.digests)
    pub last : entry state.remaining_segments (length prepared.digests) ≡ some 0
    pub few :
        (i m : ℕ)
        → i ≤ length prepared.digests
        → entry state.remaining_segments i ≡ some m
        → m + i ≤ length prepared.digests
    pub untouched : (i : ℕ) → i < from → entry state.remaining_segments i ≡ none
    pub solved :
        (i : ℕ)
        → from ≤ i
        → i < length prepared.digests
        → IsSolved (entry state.remaining_segments) (entry state.next_boundary) i

  pub IsSolved-ext :
      (remaining next remaining' next' : ℕ → Option ℕ) (start i : ℕ)
      → ((j : ℕ) → start < j → remaining' j ≡ remaining j)
      → ((j : ℕ) → start < j → next' j ≡ next j)
      → start < i
      → IsSolved remaining next i
      → IsSolved remaining' next' i
  IsSolved-ext remaining next remaining' next' start i same same_next above (inl (e, dead)) =
      inl (same i above ∙ e, λ end s. same end (omega (arith, s.forward)) ∙ dead end s)
  IsSolved-ext remaining next remaining' next' start i same same_next above (inr (m, e, b)) = inr (
    m,
    same i above ∙ e,
    record {
      end = b.end;
      after = b.after;
      next_eq = same_next i above ∙ b.next_eq;
      count_eq = b.count_eq;
      segment = b.segment;
      after_eq = same b.end (omega (arith, b.segment.forward)) ∙ b.after_eq;
      least = λ other count s f.
          b.least other count s (sym (same other (omega (arith, s.forward))) ∙ f);
    },
  )
