-- ===== src/Wire/Encoding.antt =====
-- What the encoder writes, as plain functions of the value, with no limits and no state.
use ferricstore_go.Base.{
  ℕ, ◌+◌, ◌^◌, ◌<◌, ◌≤◌, true, false, List, [], ◌∷◌, ◌++◌, length, ltb, if◌then◌else◌,
}
use ferricstore_go.Base.Int.{to_word}
use ferricstore_go.Base.Bytes.{Bytes, be}
use ferricstore_go.Wire.Value.{
  Value, Items, Fields, null, bool, int, uint, float, bytes, arr, obj, nil, cons, end, field,
  count_items, count_fields,
}
use ferricstore_go.Wire.Keys.{sort_keys}
use ferricstore_go.Wire.Encode.{max_encode_depth}

abbrev pub key_bytes : Bytes → Bytes
key_bytes k = be 4 (length k) ++ k

abbrev pub join_entries : List (Bytes × Bytes) → Bytes
join_entries [] = []
join_entries ((k, b) ∷ es) = key_bytes k ++ (b ++ join_entries es)

unfoldable mutual
  pub encoding : Value → Bytes
  encoding null = 0 ∷ []
  encoding (bool true) = 1 ∷ []
  encoding (bool false) = 2 ∷ []
  encoding (int z) = 3 ∷ be 8 (to_word z)
  encoding (uint n) = (if ltb n (2 ^ 63) then 3 else 8) ∷ be 8 n
  encoding (float bits) = 7 ∷ be 8 bits
  encoding (bytes b) = 4 ∷ (be 4 (length b) ++ b)
  encoding (arr vs) = 5 ∷ (be 4 (count_items vs) ++ encoding_items vs)
  encoding (obj fs) = 6 ∷ (be 4 (count_fields fs) ++ join_entries (sort_keys (encoding_fields fs)))

  pub encoding_items : Items → Bytes
  encoding_items nil = []
  encoding_items (cons v vs) = encoding v ++ encoding_items vs

  pub encoding_fields : Fields → List (Bytes × Bytes)
  encoding_fields end = []
  encoding_fields (field k v fs) = (k, encoding v) ∷ encoding_fields fs

-- The values inside a value, itself included.
abbrev mutual
  pub size : Value → ℕ
  size null = 1
  size (bool b) = 1
  size (int z) = 1
  size (uint n) = 1
  size (float bits) = 1
  size (bytes b) = 1
  size (arr vs) = 1 + size_items vs
  size (obj fs) = 1 + size_fields fs

  pub size_items : Items → ℕ
  size_items nil = 0
  size_items (cons v vs) = size v + size_items vs

  pub size_fields : Fields → ℕ
  size_fields end = 0
  size_fields (field k v fs) = size v + size_fields fs

-- The value at a depth stays within the nesting limit, and every length fits 32 bits.
abbrev mutual
  pub Fits : ℕ → Value → Type 0
  Fits d null = d ≤ max_encode_depth
  Fits d (bool b) = d ≤ max_encode_depth
  Fits d (int z) = d ≤ max_encode_depth
  Fits d (uint n) = d ≤ max_encode_depth
  Fits d (float bits) = d ≤ max_encode_depth
  Fits d (bytes b) = (d ≤ max_encode_depth) × (length b < 2 ^ 32)
  Fits d (arr vs) = (d ≤ max_encode_depth) × ((count_items vs < 2 ^ 32) × FitItems (d + 1) vs)
  Fits d (obj fs) = (d ≤ max_encode_depth) × ((count_fields fs < 2 ^ 32) × FitFields (d + 1) fs)

  pub FitItems : ℕ → Items → Type 0
  FitItems d nil = Unit {0}
  FitItems d (cons v vs) = Fits d v × FitItems d vs

  pub FitFields : ℕ → Fields → Type 0
  FitFields d end = Unit {0}
  FitFields d (field k v fs) = ((length k < 2 ^ 32) × Fits d v) × FitFields d fs
