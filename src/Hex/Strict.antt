-- ===== src/Hex/Strict.antt =====
-- crates/naome-memory-core/src/canonical.rs: only the text of a digest is read.
use naome_memory.Base.{
  ℕ, zero, suc, ◌+◌, ◌*◌, ◌<◌, ◌≡◌, ◌/◌, ◌%◌, ◌^◌, refl, sym, ap, subst, ◌∙◌, false, not, ◌||◌,
  List, [], ◌∷◌, ◌++◌, some, length, All, ltb, ◌==◌, arith, if◌then◌else◌, ||_false,
}
use native.Mathlib.Omega.{pow_step}
use naome_memory.Error.{ok, ok_or, >>=-eq-ok, ok_or-eq-ok, reject_if-eq-ok, ok_inj, invalid_digest}
use naome_memory.Atom.{Digest32}
use naome_memory.Hex.{
  digest_bytes, digest_of, hex_digit, hex_of, to_hex, from_hex, parse_pairs, is_ascii, from_str,
}

digit_value :
    (half : ℕ) → half < 16 → hex_digit half ≡ (if ltb half 10 then 48 + half else 87 + half)
unfolding hex_digit
digit_value zero h = refl
digit_value (suc zero) h = refl
digit_value (suc (suc zero)) h = refl
digit_value (suc (suc (suc zero))) h = refl
digit_value (suc (suc (suc (suc zero)))) h = refl
digit_value (suc (suc (suc (suc (suc zero))))) h = refl
digit_value (suc (suc (suc (suc (suc (suc zero)))))) h = refl
digit_value (suc (suc (suc (suc (suc (suc (suc zero))))))) h = refl
digit_value (suc (suc (suc (suc (suc (suc (suc (suc zero)))))))) h = refl
digit_value (suc (suc (suc (suc (suc (suc (suc (suc (suc zero))))))))) h = refl
digit_value (suc (suc (suc (suc (suc (suc (suc (suc (suc (suc zero)))))))))) h = refl
digit_value (suc (suc (suc (suc (suc (suc (suc (suc (suc (suc (suc zero))))))))))) h = refl
digit_value (suc (suc (suc (suc (suc (suc (suc (suc (suc (suc (suc (suc zero)))))))))))) h = refl
digit_value (suc (suc (suc (suc (suc (suc (suc (suc (suc (suc (suc (suc (suc zero))))))))))))) h =
    refl
digit_value (suc (suc (suc (suc (suc (suc (suc (suc (suc (suc (suc (suc (suc (suc zero))))))))))))))
      h =
    refl
digit_value
      (suc (suc (suc (suc (suc (suc (suc (suc (suc (suc (suc (suc (suc (suc (suc zero)))))))))))))))
      h =
    refl
digit_value
      (suc
        (suc (suc (suc (suc (suc (suc (suc (suc (suc (suc (suc (suc (suc (suc (suc n))))))))))))))))
      h =
    absurd (omega arith)

from_hex-small : (value half : ℕ) → from_hex value ≡ some half → half < 16
unfolding from_hex
from_hex-small value half h = ground arith

from_hex-eq : (value half : ℕ) → from_hex value ≡ some half → value ≡ hex_digit half
unfolding from_hex
from_hex-eq value half h =
    let shown = digit_value half (from_hex-small value half h) in ground arith

-- Pairs of digits that are read are the text of the bytes.
parse_pairs-eq :
    (count : ℕ) (value bytes : List ℕ)
    → length value ≡ 2 * count
    → parse_pairs value ≡ ok bytes
    → (value ≡ hex_of bytes) × All (λ b. b < 256) bytes × (length bytes ≡ count)
unfolding parse_pairs hex_of
parse_pairs-eq zero [] bytes counted h =
    subst (λ bs. ([] ≡ hex_of bs) × All (λ b. b < 256) bs × (length bs ≡ 0)) (ok_inj h)
      (refl, tt, refl)
parse_pairs-eq (suc count) [] bytes counted h = absurd (omega arith)
parse_pairs-eq count (x ∷ []) bytes counted h = absurd (omega arith)
parse_pairs-eq zero (x ∷ y ∷ rest) bytes counted h = absurd (omega arith)
parse_pairs-eq (suc count) (x ∷ y ∷ rest) bytes counted h =
    let (high, h₀, h₁) = >>=-eq-ok (ok_or (from_hex x) invalid_digest) _ h in
    let (low, l₀, h₂) = >>=-eq-ok (ok_or (from_hex y) invalid_digest) _ h₁ in
    let (more, r₀, h₃) = >>=-eq-ok (parse_pairs rest) _ h₂ in
    let h₅ = ok_or-eq-ok (from_hex x) invalid_digest h₀ in
    let l₅ = ok_or-eq-ok (from_hex y) invalid_digest l₀ in
    let high_small = from_hex-small x high h₅ in
    let low_small = from_hex-small y low l₅ in
    let (e, s, n) = parse_pairs-eq count rest more (omega arith) r₀ in
    let byte = (high * 16 % 256 + low) % 256 in
    let upper : high ≡ byte / 16 = omega arith in
    let lower : low ≡ byte % 16 = omega arith in
    let made : x ∷ y ∷ rest ≡ hex_of (byte ∷ more) = λ i.
      (from_hex-eq x high h₅ ∙ ap hex_digit upper) i
      ∷ (from_hex-eq y low l₅ ∙ ap hex_digit lower) i
      ∷ e i in
    subst (λ bs. (x ∷ y ∷ rest ≡ hex_of bs) × All (λ b. b < 256) bs × (length bs ≡ suc count))
      (ok_inj h₃) (made, (omega arith, s), ap suc n)

add_zero : (n : ℕ) → n + 0 ≡ n
add_zero n = omega arith

add_suc : (m n : ℕ) → m + suc n ≡ suc m + n
add_suc m n = omega arith

append_nil : (xs : List ℕ) → xs ++ [] ≡ xs
append_nil [] = refl
append_nil (x ∷ xs) = ap (λ zs. x ∷ zs) (append_nil xs)

append_assoc : (xs : List ℕ) (y : ℕ) (ys : List ℕ) → (xs ++ y ∷ []) ++ ys ≡ xs ++ y ∷ ys
append_assoc [] y ys = refl
append_assoc (x ∷ xs) y ys = ap (λ zs. x ∷ zs) (append_assoc xs y ys)

-- The bytes of a digest that bytes spell are these bytes.
digest_bytes-digest_of :
    (count value : ℕ) (bytes : List ℕ)
    → All (λ b. b < 256) bytes
    → digest_bytes (count + length bytes) (digest_of value bytes)
      ≡ digest_bytes count value ++ bytes
unfolding digest_bytes
digest_bytes-digest_of count value [] h =
    subst (λ n. digest_bytes n value ≡ digest_bytes count value ++ []) (sym (add_zero count))
      (sym (append_nil (digest_bytes count value)))
digest_bytes-digest_of count value (byte ∷ bytes) h =
    let more = digest_bytes-digest_of (suc count) (256 * value + byte) bytes h.1 in
    let first : (256 * value + byte) / 256 ≡ value = omega (arith, h.0) in
    let last : (256 * value + byte) % 256 ≡ byte = omega (arith, h.0) in
    let spelled : digest_bytes (suc count) (256 * value + byte) ++ bytes
        ≡ digest_bytes count value ++ byte ∷ bytes =
      rw (first, last) (append_assoc (digest_bytes count value) byte bytes) in
    subst
      (λ n.
        digest_bytes n (digest_of (256 * value + byte) bytes)
        ≡ digest_bytes count value ++ byte ∷ bytes)
      (sym (add_suc count (length bytes))) (more ∙ spelled)

digest_of-lt :
    (count value : ℕ) (bytes : List ℕ)
    → All (λ b. b < 256) bytes
    → value < 256 ^ count
    → digest_of value bytes < 256 ^ (count + length bytes)
digest_of-lt count value [] h below = subst (λ n. value < 256 ^ n) (omega arith) below
digest_of-lt count value (byte ∷ bytes) h below =
    let step = pow_step 256 count in
    let more = digest_of-lt (suc count) (256 * value + byte) bytes h.1 (omega (arith, h.0)) in
    subst (λ n. digest_of (256 * value + byte) bytes < 256 ^ n) (omega arith) more

length_32 : (count : ℕ) → not (count == 64) ≡ false → count ≡ 2 * 32
length_32 count h = ground arith

-- A text that is read is the text of the digest that is read, in lower case, and the digest has 32 bytes.
pub from_str-eq-ok :
    (value : List ℕ) (digest : Digest32)
    → from_str value ≡ ok digest
    → (value ≡ to_hex digest) × (digest < 256 ^ 32)
unfolding from_str to_hex
from_str-eq-ok value digest h =
    let (checks, h₁) = reject_if-eq-ok (not (length value == 64) || not (is_ascii value)) _ _ h in
    let (counted, _) = ||_false (not (length value == 64)) (not (is_ascii value)) checks in
    let (bytes, parsed, h₂) = >>=-eq-ok (parse_pairs value) _ h₁ in
    let (shown, small, many) =
      parse_pairs-eq 32 value bytes (length_32 (length value) counted) parsed in
    let thirty_two : 0 + length bytes ≡ 32 = omega arith in
    let spelled : digest_bytes 32 (digest_of 0 bytes) ≡ bytes =
      subst (λ n. digest_bytes n (digest_of 0 bytes) ≡ bytes) thirty_two
        (digest_bytes-digest_of 0 0 bytes small) in
    let below : digest_of 0 bytes < 256 ^ 32 =
      subst (λ n. digest_of 0 bytes < 256 ^ n) thirty_two
        (digest_of-lt 0 0 bytes small (omega arith)) in
    subst (λ d. (value ≡ hex_of (digest_bytes 32 d)) × (d < 256 ^ 32)) (ok_inj h₂)
      (shown ∙ ap hex_of (sym spelled), below)
