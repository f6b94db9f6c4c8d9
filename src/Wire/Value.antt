-- ===== src/Wire/Value.antt =====
-- The dynamic values that cross the wire (Go's `any`, as the encoder and the decoder switch on it).
-- Every signed integer type is an `int64`, every unsigned one a `uint64`; a float is its 64-bit
-- pattern; a string and a `[]byte` are written alike and are `bytes`. A Go map is the list of its
-- entries in the order in which `range` would visit them.
use ferricstore_go.Base.{ℕ, Bool, ◌^◌, ◌<◌, ◌||◌, ◌≡◌, false, List, [], ◌∷◌, suc}
use ferricstore_go.Base.Int.{ℤ, IsInt64}
use ferricstore_go.Base.Bytes.{Bytes, bytes_eq}

mutual
  pub data Value : Type 0 where
    null : Value
    bool : Bool → Value
    int : ℤ → Value
    uint : ℕ → Value
    float : ℕ → Value
    bytes : Bytes → Value
    arr : Items → Value
    obj : Fields → Value

  pub data Items : Type 0 where
    nil : Items
    cons : Value → Items → Items

  pub data Fields : Type 0 where
    end : Fields
    field : Bytes → Value → Fields → Fields

-- `len` of an array and of a map.
abbrev pub count_items : Items → ℕ
count_items nil = 0
count_items (cons v vs) = suc (count_items vs)

abbrev pub count_fields : Fields → ℕ
count_fields end = 0
count_fields (field k v fs) = suc (count_fields fs)

-- The entries of a map, and the map of a list of entries.
abbrev pub entries : Fields → List (Bytes × Value)
entries end = []
entries (field k v fs) = (k, v) ∷ entries fs

abbrev pub of_entries : List (Bytes × Value) → Fields
of_entries [] = end
of_entries ((k, v) ∷ es) = field k v (of_entries es)

-- Whether a map has an entry under the key.
module _ {ℓ} {A : Type ℓ} where
  unfoldable pub has_key : Bytes → List (Bytes × A) → Bool
  has_key k [] = false
  has_key k ((j, a) ∷ es) = bytes_eq j k || has_key k es

  -- No key occurs twice, as in every Go map.
  abbrev pub Distinct : List (Bytes × A) → Type 0
  Distinct [] = Unit {0}
  Distinct ((k, a) ∷ es) = (has_key k es ≡ false) × Distinct es

-- The values that Go's types can hold: integers in their range, maps with distinct keys.
abbrev mutual
  pub IsGoValue : Value → Type 0
  IsGoValue null = Unit {0}
  IsGoValue (bool b) = Unit {0}
  IsGoValue (int z) = IsInt64 z
  IsGoValue (uint n) = n < 2 ^ 64
  IsGoValue (float n) = n < 2 ^ 64
  IsGoValue (bytes b) = Unit {0}
  IsGoValue (arr vs) = AreGoItems vs
  IsGoValue (obj fs) = Distinct (entries fs) × AreGoFields fs

  pub AreGoItems : Items → Type 0
  AreGoItems nil = Unit {0}
  AreGoItems (cons v vs) = IsGoValue v × AreGoItems vs

  pub AreGoFields : Fields → Type 0
  AreGoFields end = Unit {0}
  AreGoFields (field k v fs) = IsGoValue v × AreGoFields fs
