-- ===== src/Hex.antt =====
-- crates/naome-memory-core/src/canonical.rs: the hexadecimal text of a digest, as the bytes of the text.
pub mod Back
pub mod Strict
use naome_memory.Base.{
  ℕ, zero, suc, ◌+◌, ◌*◌, ◌-◌, ◌<◌, ◌≡◌, ◌/◌, ◌%◌, ◌^◌, refl, ap, ◌∙◌, Bool, true, false, not, ◌&&◌,
  ◌||◌, List, [], ◌∷◌, ◌++◌, Option, none, some, length, All, ltb, leb, ◌==◌, if◌then◌else◌, arith,
  get_elem?,
}
use naome_memory.Error.{Result, ok, err, ok_or, reject_if, ◌>>=◌, ◌>>◌, invalid_digest}
use naome_memory.Atom.{Digest32}

-- The bytes of a digest, so many of them, the last one first in the recursion.
unfoldable pub digest_bytes : ℕ → Digest32 → List ℕ
digest_bytes zero digest = []
digest_bytes (suc count) digest = digest_bytes count (digest / 256) ++ digest % 256 ∷ []

-- The digest of so many bytes as `value` spells, and those that follow.
abbrev pub digest_of : ℕ → List ℕ → Digest32
digest_of value [] = value
digest_of value (byte ∷ bytes) = digest_of (256 * value + byte) bytes

-- `b"0123456789abcdef"`
abbrev pub hex_table : List ℕ
hex_table = 48 ∷ 49 ∷ 50 ∷ 51 ∷ 52 ∷ 53 ∷ 54 ∷ 55 ∷ 56 ∷ 57 ∷ 97 ∷ 98 ∷ 99 ∷ 100 ∷ 101 ∷ 102 ∷ []

-- An index that is in range: half a byte.
unfoldable pub hex_digit : ℕ → ℕ
hex_digit half = elim (get_elem? hex_table half) [ some digit ↦ digit | none ↦ 0 ]

unfoldable pub hex_of : List ℕ → List ℕ
unfolding hex_digit
hex_of [] = []
hex_of (byte ∷ bytes) = hex_digit (byte / 16) ∷ hex_digit (byte % 16) ∷ hex_of bytes

unfoldable pub to_hex : Digest32 → List ℕ
unfolding hex_of digest_bytes
to_hex digest = hex_of (digest_bytes 32 digest)

unfoldable pub from_hex : ℕ → Option ℕ
from_hex value =
    if leb 48 value && leb value 57
    then some (value - 48)
    else if leb 97 value && leb value 102
    then some (value - 97 + 10)
    else none

-- The loop over `chunks_exact(2)`.
unfoldable pub parse_pairs : List ℕ → Result (List ℕ)
unfolding from_hex
parse_pairs [] = ok []
parse_pairs (x ∷ []) = ok []
parse_pairs (x ∷ y ∷ rest) = do
  high ← ok_or (from_hex x) invalid_digest
  low ← ok_or (from_hex y) invalid_digest
  bytes ← parse_pairs rest
  ok ((high * 16 % 256 + low) % 256 ∷ bytes)

abbrev pub is_ascii : List ℕ → Bool
is_ascii [] = true
is_ascii (x ∷ xs) = ltb x 128 && is_ascii xs

-- `Digest32::from_str`
unfoldable pub from_str : List ℕ → Result Digest32
unfolding parse_pairs
from_str value = do
  reject_if (not (length value == 64) || not (is_ascii value)) invalid_digest
  bytes ← parse_pairs value
  ok (digest_of 0 bytes)
