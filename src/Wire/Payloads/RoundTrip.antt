-- ===== src/Wire/Payloads/RoundTrip.antt =====
-- A request payload is read back as the map that it stands for.
use ferricstore_go.Base.{
  ◌+◌, ◌≤◌, ◌<◌, ◌^◌, ◌≡◌, List, [], ◌∷◌, ◌++◌, length, All, Option, none, some, ok,
}
use ferricstore_go.Base.Bytes.{Bytes, codes, be}
use ferricstore_go.Wire.Value.{Value, Items, bytes, arr, obj, IsGoValue, Distinct, of_entries}
use ferricstore_go.Wire.Keys.{map_values}
use ferricstore_go.Wire.Keys.Laws.{total}
use ferricstore_go.Wire.Encode.{Encoder, max_container_items}
use ferricstore_go.Wire.Encoding.{join_entries, encoding, size, Fits}
use ferricstore_go.Wire.Normal.{normal}
use ferricstore_go.Wire.Decode.{decode_value}
use ferricstore_go.Wire.Payloads.{
  Payload, mget, mset, key_values, key_command, texts, mget_keys, zip_pairs, mset_pairs, flat,
}
use ferricstore_go.Wire.Payloads.Laws.{pair_values}

-- The map that a payload stands for, in the order in which its fields are written; none where keys and
-- values do not match.
abbrev pub paired :
    (List (Value × Value) → List (Bytes × Value))
    → Option (List (Value × Value))
    → Option (List (Bytes × Value))
paired f none = none
paired f (some ps) = some (f ps)

abbrev pub command_entries : Bytes → Items → List (Bytes × Value)
command_entries c vs = (codes "command", bytes c) ∷ (codes "args", arr vs) ∷ []

abbrev pub payload_entries : Payload → Option (List (Bytes × Value))
payload_entries (mget keys args) = some ((codes "keys", arr (mget_keys keys args)) ∷ [])
payload_entries (mset keys values args) =
    paired (λ ps. (codes "pairs", arr (pair_values ps)) ∷ []) (mset_pairs keys values args)
payload_entries (key_values c keys values) =
    paired (λ ps. command_entries c (flat ps)) (zip_pairs keys values)
payload_entries (key_command c keys) = some (command_entries c (texts keys))

abbrev pub map_bytes : List (Bytes × Value) → Bytes
map_bytes es = 6 ∷ (be 4 (length es) ++ join_entries (map_values encoding es))

-- What the writer guarantees of what it wrote.
abbrev Written : Option (List (Bytes × Value)) → Encoder → Type 0
Written none s = ⊥
Written (some es) s =
    (s.out ≡ map_bytes es)
    × (1 + total (λ e. size e.1) es ≤ max_container_items)
    × All (λ e. (length e.0 < 2 ^ 32) × Fits 1 e.1) es

abbrev start : Encoder
start = record { out = []; remaining = max_container_items }

abbrev Shaped : Option (List (Bytes × Value)) → Type 0
Shaped none = Unit {0}
Shaped (some es) = Distinct es × (length es ≤ total (λ e. size e.1) es)

-- The payload's values are ones that Go's types can hold.
abbrev pub AreGoEntries : Option (List (Bytes × Value)) → Type 0
AreGoEntries none = Unit {0}
AreGoEntries (some es) = All (λ e. IsGoValue e.1) es

-- What a reader of the bytes finds: a map with these entries, and the bytes behind it.
abbrev pub ReadAs : Option (List (Bytes × Value)) → Bytes → Bytes → Type 0
ReadAs none input rest = ⊥
ReadAs (some es) input rest =
    decode_value input ≡ ok (obj (of_entries (map_values normal es)), rest)
