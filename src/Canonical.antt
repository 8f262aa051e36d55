-- ===== src/Canonical.antt =====
-- crates/naome-memory-core/src/canonical.rs: the typed binary encoding that the digests are taken of.
--
-- A `Value` is serde_json's, a text its UTF-8 bytes, an object its entries. `usize` has 64 bits, so a
-- length always fits its frame.
use naome_memory.Base.{
  ℕ, suc, ◌-◌, ◌/◌, ◌%◌, ◌^◌, String, Bool, true, false, List, [], ◌∷◌, ◌++◌, length, u64_mod,
  sort_by, ltb, ◌==◌, if◌then◌else◌,
}
use naome_memory.Error.{Result, ok, err, canonical_encoding, ◌>>=◌}

-- `serde_json::Number`: what `as_u64` reads, what only `as_i64` reads (the number -n), and the rest.
pub data Number : Type 0 where
  unsigned : ℕ → Number
  negative : ℕ → Number
  float : Number

mutual
  pub data Value : Type 0 where
    null : Value
    bool : Bool → Value
    number : Number → Value
    string : List ℕ → Value
    array : Values → Value
    object : Entries → Value

  pub data Values : Type 0 where
    nil : Values
    cons : Value → Values → Values

  pub data Entries : Type 0 where
    end : Entries
    entry : List ℕ → Value → Entries → Entries

-- `u64::to_be_bytes`
unfoldable pub be64 : ℕ → List ℕ
be64 n =
    n / 2 ^ 56 % 256
    ∷ n / 2 ^ 48 % 256
    ∷ n / 2 ^ 40 % 256
    ∷ n / 2 ^ 32 % 256
    ∷ n / 2 ^ 24 % 256
    ∷ n / 2 ^ 16 % 256
    ∷ n / 2 ^ 8 % 256
    ∷ n % 256
    ∷ []

unfoldable pub frame : List ℕ → List ℕ
unfolding be64
frame bytes = be64 (length bytes) ++ bytes

-- Byte strings compare lexicographically.
unfoldable pub bytes_le : List ℕ → List ℕ → Bool
bytes_le [] ys = true
bytes_le (x ∷ xs) [] = false
bytes_le (x ∷ xs) (y ∷ ys) = let rest = bytes_le xs ys in if x == y then rest else ltb x y

unfoldable pub encode_number : Number → Result (List ℕ)
unfolding be64
encode_number (unsigned n) = ok (3 ∷ be64 n)
encode_number (negative n) = ok (4 ∷ be64 (u64_mod - n))
encode_number float = err (canonical_encoding "floating point values are forbidden")

abbrev count_values : Values → ℕ
count_values nil = 0
count_values (cons v vs) = suc (count_values vs)

abbrev count_entries : Entries → ℕ
count_entries end = 0
count_entries (entry k v es) = suc (count_entries es)

-- The frames of an object's entries, in the order of their keys.
unfoldable pub entry_frames : List (List ℕ × List ℕ) → List ℕ
unfolding frame
entry_frames [] = []
entry_frames ((key, encoded) ∷ es) = frame key ++ (frame encoded ++ entry_frames es)

abbrev pub key_le : List ℕ × List ℕ → List ℕ × List ℕ → Bool
unfolding bytes_le
key_le a b = bytes_le a.0 b.0

-- `encode_value`, as the bytes that it appends. Its one error does not depend on the order in which
-- the entries are visited.
unfoldable mutual
  unfolding encode_number frame entry_frames sort_by key_le

  pub encode_value : Value → Result (List ℕ)
  encode_value null = ok (0 ∷ [])
  encode_value (bool b) = ok (if b then 2 ∷ [] else 1 ∷ [])
  encode_value (number n) = encode_number n
  encode_value (string bytes) = ok (5 ∷ frame bytes)
  encode_value (array vs) = do items ← encode_items vs; ok (6 ∷ be64 (count_values vs) ++ items)
  encode_value (object es) = do
    entries ← encode_entries es
    ok (7 ∷ be64 (count_entries es) ++ entry_frames (sort_by key_le entries))

  pub encode_items : Values → Result (List ℕ)
  encode_items nil = ok []
  encode_items (cons v vs) = do
    encoded ← encode_value v
    rest ← encode_items vs
    ok (frame encoded ++ rest)

  pub encode_entries : Entries → Result (List (List ℕ × List ℕ))
  encode_entries end = ok []
  encode_entries (entry key v es) = do
    encoded ← encode_value v
    rest ← encode_entries es
    ok ((key, encoded) ∷ rest)

-- What `serde_json::to_value` returns: a value, or the text of its error.
pub data Serialized : Type 0 where
  value : Value → Serialized
  failed : String → Serialized

-- `canonical_binary`, after serde has visited the value.
unfoldable pub canonical_binary : Serialized → Result (List ℕ)
unfolding encode_value
canonical_binary (value v) = encode_value v
canonical_binary (failed error) = err (canonical_encoding error)
