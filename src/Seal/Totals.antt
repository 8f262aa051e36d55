-- ===== src/Seal/Totals.antt =====
-- crates/naome-memory-core/src/seal.rs: what `PreparedEpisodeEvents::new` gives, and the sizes of its ranges.
use naome_memory.Base.{
  ℕ, zero, suc, ◌+◌, ◌-◌, ◌^◌, ◌≤◌, ◌<◌, ◌≡◌, ◌∙◌, refl, sym, ap, subst, List, [], ◌∷◌, some, All,
  All-map, length, get_or, get_elem?, take, drop, arith, u64_max, checked_add, if◌then◌else◌,
  le→leb,
}
use naome_memory.Error.{ok, ok_or, >>=-eq-ok, ok_or-eq-ok, ok_inj}
use naome_memory.Atom.{Digest32}
use naome_memory.Externals.{Externals}
use naome_memory.Seal.Types.{EpisodeEvent}
use naome_memory.Seal.Input.{is_substantive}
use naome_memory.Seal.Prepared.{
  PreparedEpisodeEvents, event_digest, event_body_bytes, prepare_from, prepare, range_body_bytes,
}
use naome_memory.Seal.Partition.Segments.{IsRising, IsPrepared}

added : (a b c : ℕ) → checked_add a b ≡ some c → (c ≡ a + b) × (c ≤ u64_max)
added a b c h = ground arith

-- The totals after a first one are in order, and machine words.
pub record IsTotals (bytes substantive : ℕ) (events : List EpisodeEvent) (p : PreparedEpisodeEvents)
    : Type 0 where
  pub digest_count : length p.digests ≡ length events
  pub bytes_count : length p.cumulative_body_bytes ≡ length events
  pub substantive_count : length p.cumulative_substantive ≡ length events
  pub bytes_rising : IsRising (bytes ∷ p.cumulative_body_bytes)
  pub substantive_rising : IsRising (substantive ∷ p.cumulative_substantive)
  pub bytes_small : All (λ y. y ≤ u64_max) p.cumulative_body_bytes

IsRising-from : (a b : ℕ) (xs : List ℕ) → a ≤ b → IsRising (b ∷ xs) → IsRising (a ∷ b ∷ xs)
IsRising-from a b xs h r = ((h, All-map _ _ xs (λ y k. omega arith) r.0), r)

module _ (ext : Externals) where
  prepare_from-IsTotals :
      (events : List EpisodeEvent) (bytes substantive : ℕ) (p : PreparedEpisodeEvents)
      → prepare_from ext bytes substantive events ≡ ok p
      → IsTotals bytes substantive events p
  unfolding prepare_from
  prepare_from-IsTotals [] bytes substantive p h =
      subst (IsTotals bytes substantive []) (ok_inj h) (record {
        digest_count = refl;
        bytes_count = refl;
        substantive_count = refl;
        bytes_rising = (tt, tt);
        substantive_rising = (tt, tt);
        bytes_small = tt;
      })
  prepare_from-IsTotals (event ∷ events) bytes substantive p h =
      let (digest, a, h₁) = >>=-eq-ok (event_digest ext event) _ h in
      let (own, b, h₂) = >>=-eq-ok (event_body_bytes ext event digest) _ h₁ in
      let (total, c, h₃) = >>=-eq-ok (ok_or (checked_add bytes own) _) _ h₂ in
      let (count, d, h₄) =
        >>=-eq-ok (ok_or (checked_add substantive (if is_substantive event then 1 else 0)) _) _
          h₃ in
      let (rest, e, h₅) = >>=-eq-ok (prepare_from ext total count events) _ h₄ in
      let r = prepare_from-IsTotals events total count rest e in
      let (total_eq, small) = added bytes own total (ok_or-eq-ok _ _ c) in
      let (count_eq, few) = added substantive _ count (ok_or-eq-ok _ _ d) in
      subst (IsTotals bytes substantive (event ∷ events)) (ok_inj h₅) (record {
        digest_count = ap suc r.digest_count;
        bytes_count = ap suc r.bytes_count;
        substantive_count = ap suc r.substantive_count;
        bytes_rising = IsRising-from bytes total _ (omega arith) r.bytes_rising;
        substantive_rising = IsRising-from substantive count _ (omega arith) r.substantive_rising;
        bytes_small = (small, r.bytes_small);
      })

  pub length-prepare :
      (events : List EpisodeEvent) (p : PreparedEpisodeEvents)
      → prepare ext events ≡ ok p
      → length p.digests ≡ length events
  unfolding prepare
  length-prepare events p h =
      let (rest, a, h₁) = >>=-eq-ok (prepare_from ext 0 0 events) _ h in
      let r = prepare_from-IsTotals events 0 0 rest a in
      subst (λ q. length q.digests ≡ length events) (ok_inj h₁) r.digest_count

  -- What `PreparedEpisodeEvents::new` gives, of fewer than 2^62 events: a digest for each event, and a total
  -- more than that of the bytes and of the substantive events, each in order, the bytes in 64 bits.
  pub prepare-IsPrepared :
      (events : List EpisodeEvent) (p : PreparedEpisodeEvents)
      → suc (length events) ≤ 2 ^ 62
      → prepare ext events ≡ ok p
      → IsPrepared p × (length p.digests ≡ length events)
  unfolding prepare
  prepare-IsPrepared events p few h =
      let (rest, a, h₁) = >>=-eq-ok (prepare_from ext 0 0 events) _ h in
      let r = prepare_from-IsTotals events 0 0 rest a in
      subst (λ q. IsPrepared q × (length q.digests ≡ length events)) (ok_inj h₁)
        (
          record {
            bytes_length = ap suc (r.bytes_count ∙ sym r.digest_count);
            substantive_length = ap suc (r.substantive_count ∙ sym r.digest_count);
            bytes_rising = r.bytes_rising;
            substantive_rising = r.substantive_rising;
            bytes_small = (omega arith, r.bytes_small);
            count_small = omega (arith, r.digest_count);
          },
          r.digest_count,
        )

abbrev pub sum : List ℕ → ℕ
sum [] = 0
sum (x ∷ xs) = x + sum xs

take_nil : (n : ℕ) → ◌≡◌ {A = List ℕ} (take n []) []
take_nil zero = refl
take_nil (suc n) = refl

sum-take :
    (start end : ℕ) (xs : List ℕ)
    → start ≤ end
    → sum (take end xs) ≡ sum (take start xs) + sum (take (end - start) (drop start xs))
sum-take zero end xs h =
    let whole : sum (take end xs) ≡ sum (take (end - 0) xs) = ap (λ n. sum (take n xs)) same_end in
    omega arith
  where
    same_end : end ≡ end - 0
    same_end = omega arith
sum-take (suc start) zero xs h = absurd (omega arith)
sum-take (suc start) (suc end) [] h = let e = ap sum (take_nil (suc end - suc start)) in omega arith
sum-take (suc start) (suc end) (x ∷ xs) h =
    let rest = sum-take start end xs (omega arith) in
    let e : suc end - suc start ≡ end - start = omega arith in rw e (omega arith)

get_elem?-some : (xs : List ℕ) (i : ℕ) → i < length xs → get_elem? xs i ≡ some (get_or xs i 0)
get_elem?-some [] i h = absurd (omega arith)
get_elem?-some (x ∷ xs) zero h = refl
get_elem?-some (x ∷ xs) (suc i) h = get_elem?-some xs i (omega arith)

range_between :
    (p : PreparedEpisodeEvents) (start end first_bytes last_bytes : ℕ)
    → get_elem? p.cumulative_body_bytes start ≡ some first_bytes
    → get_elem? p.cumulative_body_bytes end ≡ some last_bytes
    → first_bytes ≤ last_bytes
    → range_body_bytes p start end ≡ ok (last_bytes - first_bytes)
unfolding range_body_bytes
range_between p start end a b e f h = rw (e, f, le→leb a b h, range_body_bytes) refl

ok_eq : (a b c d : ℕ) → a ≡ 0 + c → b ≡ 0 + (c + d) → ok (b - a) ≡ ok d
ok_eq a b c d e f = ap ok (omega arith)

module _ (ext : Externals) where
  -- The digest of each event, and the bytes that it adds to a body.
  abbrev pub Measures : List EpisodeEvent → List Digest32 → List ℕ → Type 0
  Measures [] [] [] = Unit
  Measures (event ∷ events) (digest ∷ digests) (size ∷ sizes) =
      (event_digest ext event ≡ ok digest)
      × (event_body_bytes ext event digest ≡ ok size)
      × Measures events digests sizes
  Measures _ _ _ = ⊥

  prepare_from-sum :
      (events : List EpisodeEvent) (bytes substantive : ℕ) (p : PreparedEpisodeEvents)
      → prepare_from ext bytes substantive events ≡ ok p
      → (sizes : List ℕ) × Measures events p.digests sizes
        × ((i : ℕ)
            → i ≤ length events
            → get_or (bytes ∷ p.cumulative_body_bytes) i 0 ≡ bytes + sum (take i sizes))
  unfolding prepare_from
  prepare_from-sum [] bytes substantive p h =
      subst
        (λ (q : PreparedEpisodeEvents).
          (s : List ℕ) × Measures [] q.digests s
          × ((i : ℕ)
              → i ≤ 0
              → get_or (bytes ∷ q.cumulative_body_bytes) i 0 ≡ bytes + sum (take i s)))
        (ok_inj h) ([], tt, λ i few. start_only i few)
    where
      start_only : (i : ℕ) → i ≤ 0 → get_or (bytes ∷ []) i 0 ≡ bytes + sum (take i [])
      start_only zero few = omega arith
      start_only (suc i) few = absurd (omega arith)
  prepare_from-sum (event ∷ events) bytes substantive p h =
      let (digest, a, h₁) = >>=-eq-ok (event_digest ext event) _ h in
      let (own, b, h₂) = >>=-eq-ok (event_body_bytes ext event digest) _ h₁ in
      let (total, c, h₃) = >>=-eq-ok (ok_or (checked_add bytes own) _) _ h₂ in
      let (count, d, h₄) =
        >>=-eq-ok (ok_or (checked_add substantive (if is_substantive event then 1 else 0)) _) _
          h₃ in
      let (rest, e, h₅) = >>=-eq-ok (prepare_from ext total count events) _ h₄ in
      let (sizes, m, at) = prepare_from-sum events total count rest e in
      let (total_eq, small) = added bytes own total (ok_or-eq-ok _ _ c) in
      subst
        (λ (q : PreparedEpisodeEvents).
          (s : List ℕ) × Measures (event ∷ events) q.digests s
          × ((i : ℕ)
              → i ≤ suc (length events)
              → get_or (bytes ∷ q.cumulative_body_bytes) i 0 ≡ bytes + sum (take i s)))
        (ok_inj h₅)
        (
          own ∷ sizes,
          (a, b, m),
          step bytes own total rest.cumulative_body_bytes sizes (length events) total_eq at,
        )
    where
      step :
          (bytes own total : ℕ) (xs sizes : List ℕ) (n : ℕ)
          → total ≡ bytes + own
          → ((i : ℕ) → i ≤ n → get_or (total ∷ xs) i 0 ≡ total + sum (take i sizes))
          → (i : ℕ) → i ≤ suc n
          → get_or (bytes ∷ total ∷ xs) i 0 ≡ bytes + sum (take i (own ∷ sizes))
      step bytes own total xs sizes n e at zero h = omega arith
      step bytes own total xs sizes n e at (suc i) h = at i (omega arith) ∙ omega arith

  -- The bytes of a range of prepared events are the sum of what its events add to a body.
  pub range_body_bytes-sum :
      (events : List EpisodeEvent) (p : PreparedEpisodeEvents)
      → prepare ext events ≡ ok p
      → (sizes : List ℕ) × Measures events p.digests sizes
        × ((start end : ℕ)
            → start ≤ end
            → end ≤ length events
            → range_body_bytes p start end ≡ ok (sum (take (end - start) (drop start sizes))))
  unfolding prepare
  range_body_bytes-sum events p h =
      let (rest, a, h₁) = >>=-eq-ok (prepare_from ext 0 0 events) _ h in
      let (sizes, m, at) = prepare_from-sum events 0 0 rest a in
      let r = prepare_from-IsTotals ext events 0 0 rest a in
      subst
        (λ (q : PreparedEpisodeEvents).
          (s : List ℕ) × Measures events q.digests s
          × ((start end : ℕ)
              → start ≤ end
              → end ≤ length events
              → range_body_bytes q start end ≡ ok (sum (take (end - start) (drop start s)))))
        (ok_inj h₁)
        (
          sizes,
          m,
          λ start end low high.
              let bytes = 0 ∷ rest.cumulative_body_bytes in
              let before = at start (omega arith) in
              let after = at end high in
              let split = sum-take start end sizes low in
              range_between _ start end (get_or bytes start 0) (get_or bytes end 0)
                (get_elem?-some bytes start (omega (arith, r.bytes_count)))
                (get_elem?-some bytes end (omega (arith, r.bytes_count))) (omega arith)
              ∙ ok_eq _ _ (sum (take start sizes)) _ before (after ∙ ap (λ n. 0 + n) split),
        )
