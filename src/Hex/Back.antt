-- ===== src/Hex/Back.antt =====
-- crates/naome-memory-core/src/canonical.rs: the hexadecimal text of a digest is read back.
use naome_memory.Base.{
  length-append, All-append, ℕ, zero, suc, ◌+◌, ◌*◌, ◌<◌, ◌≡◌, ◌/◌, ◌%◌, ◌^◌, refl, ap, ◌∙◌, true,
  List, [], ◌∷◌, ◌++◌, some, length, All, ltb, arith,
}
use native.Mathlib.Omega.{pow_step}
use naome_memory.Error.{ok}
use naome_memory.Atom.{Digest32}
use naome_memory.Hex.{
  digest_bytes, digest_of, hex_digit, hex_of, to_hex, from_hex, parse_pairs, is_ascii, from_str,
}

-- A digit is ASCII, and is read back.
digit_back :
    (half : ℕ)
    → half < 16
    → (from_hex (hex_digit half) ≡ some half) × (ltb (hex_digit half) 128 ≡ true)
unfolding from_hex hex_digit
digit_back zero h = (refl, refl)
digit_back (suc zero) h = (refl, refl)
digit_back (suc (suc zero)) h = (refl, refl)
digit_back (suc (suc (suc zero))) h = (refl, refl)
digit_back (suc (suc (suc (suc zero)))) h = (refl, refl)
digit_back (suc (suc (suc (suc (suc zero))))) h = (refl, refl)
digit_back (suc (suc (suc (suc (suc (suc zero)))))) h = (refl, refl)
digit_back (suc (suc (suc (suc (suc (suc (suc zero))))))) h = (refl, refl)
digit_back (suc (suc (suc (suc (suc (suc (suc (suc zero)))))))) h = (refl, refl)
digit_back (suc (suc (suc (suc (suc (suc (suc (suc (suc zero))))))))) h = (refl, refl)
digit_back (suc (suc (suc (suc (suc (suc (suc (suc (suc (suc zero)))))))))) h = (refl, refl)
digit_back (suc (suc (suc (suc (suc (suc (suc (suc (suc (suc (suc zero))))))))))) h = (refl, refl)
digit_back (suc (suc (suc (suc (suc (suc (suc (suc (suc (suc (suc (suc zero)))))))))))) h =
    (refl, refl)
digit_back (suc (suc (suc (suc (suc (suc (suc (suc (suc (suc (suc (suc (suc zero))))))))))))) h =
    (refl, refl)
digit_back (suc (suc (suc (suc (suc (suc (suc (suc (suc (suc (suc (suc (suc (suc zero))))))))))))))
      h =
    (refl, refl)
digit_back
      (suc (suc (suc (suc (suc (suc (suc (suc (suc (suc (suc (suc (suc (suc (suc zero)))))))))))))))
      h =
    (refl, refl)
digit_back
      (suc
        (suc (suc (suc (suc (suc (suc (suc (suc (suc (suc (suc (suc (suc (suc (suc n))))))))))))))))
      h =
    absurd (omega arith)

hex_of-is_ascii : (bytes : List ℕ) → All (λ b. b < 256) bytes → is_ascii (hex_of bytes) ≡ true
unfolding hex_of
hex_of-is_ascii [] h = refl
hex_of-is_ascii (byte ∷ bytes) h =
    let high = (digit_back (byte / 16) (omega (arith, h.0))).1 in
    let low = (digit_back (byte % 16) (omega arith)).1 in rw (high, low) (hex_of-is_ascii bytes h.1)

length-hex_of : (bytes : List ℕ) → length (hex_of bytes) ≡ 2 * length bytes
unfolding hex_of
length-hex_of [] = refl
length-hex_of (byte ∷ bytes) = omega (arith, length-hex_of bytes)

parse_pairs-hex_of :
    (bytes : List ℕ) → All (λ b. b < 256) bytes → parse_pairs (hex_of bytes) ≡ ok bytes
unfolding hex_of parse_pairs
parse_pairs-hex_of [] h = refl
parse_pairs-hex_of (byte ∷ bytes) h =
    let high = (digit_back (byte / 16) (omega (arith, h.0))).0 in
    let low = (digit_back (byte % 16) (omega arith)).0 in
    let whole : (byte / 16 * 16 % 256 + byte % 16) % 256 ≡ byte = omega (arith, h.0) in
    rw (high, low, parse_pairs-hex_of bytes h.1, whole) refl

digest_bytes-small :
    (count : ℕ) (digest : Digest32) → All (λ b. b < 256) (digest_bytes count digest)
unfolding digest_bytes
digest_bytes-small zero digest = tt
digest_bytes-small (suc count) digest =
    All-append (λ b. b < 256) (digest_bytes count (digest / 256)) (digest % 256 ∷ [])
      (digest_bytes-small count (digest / 256)) (omega arith, tt)

length-digest_bytes : (count : ℕ) (digest : Digest32) → length (digest_bytes count digest) ≡ count
unfolding digest_bytes
length-digest_bytes zero digest = refl
length-digest_bytes (suc count) digest = omega (
  arith,
  length-append (digest_bytes count (digest / 256)) (digest % 256 ∷ []),
  length-digest_bytes count (digest / 256),
)

digest_of_append :
    (value : ℕ) (bytes : List ℕ) (byte : ℕ)
    → digest_of value (bytes ++ byte ∷ []) ≡ 256 * digest_of value bytes + byte
digest_of_append value [] byte = refl
digest_of_append value (b ∷ bytes) byte = digest_of_append (256 * value + b) bytes byte

digest_of-digest_bytes :
    (count : ℕ) (digest : Digest32)
    → digest < 256 ^ count
    → digest_of 0 (digest_bytes count digest) ≡ digest
unfolding digest_bytes
digest_of-digest_bytes zero digest h = omega arith
digest_of-digest_bytes (suc count) digest h =
    let step = pow_step 256 count in
    let rest = digest_of-digest_bytes count (digest / 256) (omega arith) in
    let spelled = digest_of_append 0 (digest_bytes count (digest / 256)) (digest % 256) in
    omega arith

from_str-parsed :
    (value bytes : List ℕ)
    → length value ≡ 64
    → is_ascii value ≡ true
    → parse_pairs value ≡ ok bytes
    → from_str value ≡ ok (digest_of 0 bytes)
unfolding from_str
from_str-parsed value bytes counted ascii parsed = rw (counted, ascii, parsed) refl

-- A digest of 32 bytes is read back from its text.
pub from_str-to_hex : (digest : Digest32) → digest < 256 ^ 32 → from_str (to_hex digest) ≡ ok digest
unfolding to_hex
from_str-to_hex digest h =
    let small = digest_bytes-small 32 digest in
    let ascii = hex_of-is_ascii (digest_bytes 32 digest) small in
    let counted : length (hex_of (digest_bytes 32 digest)) ≡ 64 =
      length-hex_of (digest_bytes 32 digest) ∙ ap (λ n. 2 * n) (length-digest_bytes 32 digest) in
    let parsed = parse_pairs-hex_of (digest_bytes 32 digest) small in
    from_str-parsed (hex_of (digest_bytes 32 digest)) (digest_bytes 32 digest) counted ascii parsed
    ∙ ap ok (digest_of-digest_bytes 32 digest h)
