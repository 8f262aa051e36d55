-- ===== src/Tests/Texts.antt =====
-- The text of a digest.
use naome_memory.Base.{◌≡◌, ◌<◌, ◌^◌, arith}
use naome_memory.Error.{ok}
use naome_memory.Atom.{Digest32}
use naome_memory.Hex.{to_hex, from_str}
use naome_memory.Hex.Back.{from_str-to_hex}
use naome_memory.Hex.Strict.{from_str-eq-ok}

abbrev digest : Digest32
digest = 44_975

below : digest < 256 ^ 32
below = omega arith

from_str-to_hex_example : from_str (to_hex digest) ≡ ok digest
from_str-to_hex_example = from_str-to_hex digest below

read : from_str (to_hex digest) ≡ ok digest
read = from_str-to_hex digest below

from_str-eq-ok_example : (to_hex digest ≡ to_hex digest) × (digest < 256 ^ 32)
from_str-eq-ok_example = from_str-eq-ok (to_hex digest) digest read
