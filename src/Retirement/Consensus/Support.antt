-- ===== src/Retirement/Consensus/Support.antt =====
-- The counts behind the consensus of crates/naome-memory-core/src/retirement.rs.
use naome_memory.Base.{
  Ordering-cases, Has-map, Has-of_map, Has-filterb, Has-of_filterb, ℕ, ◌+◌, ◌≤◌, ◌<◌, ◌≡◌, refl,
  sym, ap, ◌∙◌, subst, List, [], ◌∷◌, true, false, arith, Has, All, All-map, All-Has, leb, Ord,
  is_eq, if◌then◌else◌, inl, inr, filterb, flip, ◌↔◌,
}
use Prim.Native.Nat.Ordering.{lt, eq}
use naome_memory.Retirement.Consensus.{bump, tally_from, agreed}

module _ {K : Type 0} ⦃o : Ord K⦄ where
  abbrev pub occurrences : K → List K → ℕ
  occurrences z [] = 0
  occurrences z (k ∷ ks) = (if is_eq (o.cmp z k) then 1 else 0) + occurrences z ks

  -- The counts of the entries of a key, and entries in the order of their keys.
  abbrev counted : K → List (K × ℕ) → ℕ
  counted z [] = 0
  counted z ((k, n) ∷ es) = (if is_eq (o.cmp z k) then n else 0) + counted z es

  abbrev InOrder : List (K × ℕ) → Type 0
  InOrder [] = Unit
  InOrder ((k, n) ∷ es) = All (λ e. o.cmp k e.0 ≡ lt) es × InOrder es

  counted-bump :
      (z key : K) (es : List (K × ℕ))
      → counted z (bump key es) ≡ counted z es + (if is_eq (o.cmp z key) then 1 else 0)
  unfolding bump
  counted-bump z key [] = omega arith
  counted-bump z key ((k, n) ∷ es) = elim (Ordering-cases (o.cmp key k)) [
    | inl e ↦ rw (e, bump) (omega arith)
    | inr (inl e) ↦
        rw (e, bump)
          (subst
            (λ x.
              (if is_eq (o.cmp z k) then n + 1 else 0) + counted z es
              ≡ (if is_eq (o.cmp z k) then n else 0)
                + counted z es
                + (if is_eq (o.cmp z x) then 1 else 0))
            (sym (o.cmp_eq key k e)) (ground arith))
    | inr (inr e) ↦ rw (e, bump) (omega (arith, counted-bump z key es))
  ]

  counted-tally_from :
      (z : K) (es : List (K × ℕ)) (keys : List K)
      → counted z (tally_from es keys) ≡ counted z es + occurrences z keys
  unfolding tally_from
  counted-tally_from z es [] = omega arith
  counted-tally_from z es (k ∷ ks) =
      omega (arith, counted-tally_from z (bump k es) ks, counted-bump z k es)

  All-bump :
      (x key : K) (es : List (K × ℕ))
      → o.cmp x key ≡ lt
      → All (λ e. o.cmp x e.0 ≡ lt) es
      → All (λ e. o.cmp x e.0 ≡ lt) (bump key es)
  unfolding bump
  All-bump x key [] h a = (h, tt)
  All-bump x key ((k, n) ∷ es) h a = elim (Ordering-cases (o.cmp key k)) [
    | inl e ↦ rw (e, bump) (h, a)
    | inr (inl e) ↦ rw (e, bump) (a.0, a.1)
    | inr (inr e) ↦ rw (e, bump) (a.0, All-bump x key es h a.1)
  ]

  bump-InOrder : (key : K) (es : List (K × ℕ)) → InOrder es → InOrder (bump key es)
  unfolding bump
  bump-InOrder key [] a = (tt, tt)
  bump-InOrder key ((k, n) ∷ es) a = elim (Ordering-cases (o.cmp key k)) [
    | inl e ↦ rw (e, bump) ((e, All-map _ _ es (λ x l. o.cmp_trans key k x.0 e l) a.0), a)
    | inr (inl e) ↦ rw (e, bump) (a.0, a.1)
    | inr (inr e) ↦
        rw (e, bump) (All-bump k key es (o.cmp_flip key k ∙ ap flip e) a.0, bump-InOrder key es a.1)
  ]

  tally_from-InOrder :
      (es : List (K × ℕ)) (keys : List K) → InOrder es → InOrder (tally_from es keys)
  unfolding tally_from
  tally_from-InOrder es [] a = a
  tally_from-InOrder es (k ∷ ks) a = tally_from-InOrder (bump k es) ks (bump-InOrder k es a)

  zero_of : (z k : K) (n : ℕ) → is_eq (o.cmp z k) ≡ false → (if is_eq (o.cmp z k) then n else 0) ≡ 0
  zero_of z k n e = rw e refl

  counted-after : (z : K) (es : List (K × ℕ)) → All (λ e. o.cmp z e.0 ≡ lt) es → counted z es ≡ 0
  counted-after z [] a = refl
  counted-after z ((k, n) ∷ es) a =
      omega (arith, counted-after z es a.1, zero_of z k n (ap is_eq a.0))

  -- In ordered entries the counts of a key are the count of its entry.
  counted-Has : (z : K) (n : ℕ) (es : List (K × ℕ)) → InOrder es → Has (z, n) es → counted z es ≡ n
  counted-Has z n [] a m = absurd m
  counted-Has z n ((k, c) ∷ es) a (inl e) =
      let same : k ≡ z = ap (λ x. x.0) e in
      let count : c ≡ n = ap (λ x. x.1) e in
      let after = counted-after z es (subst (λ x. All (λ e. o.cmp x e.0 ≡ lt) es) same a.0) in
      let here : is_eq (o.cmp z k) ≡ true =
        ap is_eq (subst (λ x. o.cmp z x ≡ eq) (sym same) (o.cmp_self z)) in
      rw here (omega (arith, after, count))
  counted-Has z n ((k, c) ∷ es) a (inr m) =
      let before : o.cmp k z ≡ lt = All-Has (λ e. o.cmp k e.0 ≡ lt) es (z, n) a.0 m in
      let apart : is_eq (o.cmp z k) ≡ false = ap is_eq (o.cmp_flip k z ∙ ap flip before) in
      omega (arith, counted-Has z n es a.1 m, zero_of z k c apart)

  Has-counted : (z : K) (es : List (K × ℕ)) → 0 < counted z es → (n : ℕ) × Has (z, n) es
  Has-counted z [] h = absurd (omega (arith, h))
  Has-counted z ((k, c) ∷ es) h = elim (Ordering-cases (o.cmp z k)) [
    | inl e ↦
        let (n, m) = Has-counted z es (omega (arith, h, zero_of z k c (ap is_eq e))) in (n, inr m)
    | inr (inl e) ↦ (c, inl (ap (λ x. (x, c)) (sym (o.cmp_eq z k e))))
    | inr (inr e) ↦
        let (n, m) = Has-counted z es (omega (arith, h, zero_of z k c (ap is_eq e))) in (n, inr m)
  ]

  -- For a positive requirement, a key is kept just if it occurs at least so often.
  pub agreed_iff :
      (keys : List K) (required : ℕ) (z : K)
      → 0 < required
      → Has z (agreed keys required) ↔ (required ≤ occurrences z keys)
  unfolding agreed
  agreed_iff keys required z pos =
      let counts = tally_from [] keys in
      let ordered = tally_from-InOrder [] keys tt in
      let total = counted-tally_from z [] keys in
      (
        λ m.
            let ((k, n), among, e) =
              Has-map (λ c. c.0) (filterb (λ c. leb required c.1) counts) z m in
            let (known, enough) = Has-filterb (λ c. leb required c.1) counts (k, n) among in
            let found = counted-Has z n counts ordered (subst (λ x. Has (x, n) counts) e known) in
            ground (arith, found, total, enough),
        λ h.
            let (n, m) = Has-counted z counts (omega (arith, total, h, pos)) in
            let found = counted-Has z n counts ordered m in
            Has-of_map (λ c. c.0) (filterb (λ c. leb required c.1) counts) (z, n)
              (Has-of_filterb (λ c. leb required c.1) counts (z, n) m
                (ground (arith, found, total, h))),
      )
