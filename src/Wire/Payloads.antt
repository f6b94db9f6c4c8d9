-- ===== src/Wire/Payloads.antt =====
-- The request payloads that are written without a Go map in between: `nativeMGetPayload`,
-- `nativeMSetPayload` and `nativeKeyValueCommandPayload` of native_codec_wire.go, and
-- `nativeKeyCommandPayload` of native_codec_kv_wire.go.
pub mod Laws
pub mod RoundTrip
use ferricstore_go.Base.{
  ℕ, ◌+◌, ◌*◌, List, [], ◌∷◌, length, Option, none, some, Result, ok, err, ◌>>=◌, ◌==◌,
  if◌then◌else◌,
}
use ferricstore_go.Base.Bytes.{Bytes, codes}
use ferricstore_go.Wire.Value.{Value, Items, bytes, arr, nil, cons, count_items}
use ferricstore_go.Wire.Encode.{
  EncodeError, pair_mismatch, limit_not_positive, Writer, ◌▷◌, done, fail, enter,
  ensure_container_budget, max_container_items, write_container_header, write_map_key,
  write_single_field_map, write_value, write_items,
}

-- A nil slice of keys is `none`; then the arguments count.
pub data Payload : Type 0 where
  mget : Option (List Bytes) → Items → Payload
  mset : Option (List Bytes) → Items → Items → Payload
  key_values : Bytes → List Bytes → Items → Payload
  key_command : Bytes → List Bytes → Payload

abbrev pub texts : List Bytes → Items
texts [] = nil
texts (k ∷ ks) = cons (bytes k) (texts ks)

-- `container` of MGET.
abbrev pub mget_keys : Option (List Bytes) → Items → Items
mget_keys (some ks) args = texts ks
mget_keys none args = args

abbrev pub with_pair : Value → Value → Option (List (Value × Value)) → Option (List (Value × Value))
with_pair k v none = none
with_pair k v (some ps) = some ((k, v) ∷ ps)

-- Keys with their values, where there are as many of each.
abbrev pub zip_pairs : List Bytes → Items → Option (List (Value × Value))
zip_pairs [] nil = some []
zip_pairs [] (cons v vs) = none
zip_pairs (k ∷ ks) nil = none
zip_pairs (k ∷ ks) (cons v vs) = with_pair (bytes k) v (zip_pairs ks vs)

-- Arguments two by two, where their number is even.
abbrev pub pair_up : Items → Option (List (Value × Value))
pair_up nil = some []
pair_up (cons k nil) = none
pair_up (cons k (cons v vs)) = with_pair k v (pair_up vs)

abbrev pub mset_pairs : Option (List Bytes) → Items → Items → Option (List (Value × Value))
mset_pairs (some ks) values args = zip_pairs ks values
mset_pairs none values args = pair_up args

-- Keys and values in turn.
abbrev pub flat : List (Value × Value) → Items
flat [] = nil
flat ((k, v) ∷ ps) = cons k (cons v (flat ps))

module _ (limit : ℕ) where
  -- The array inside a payload, without the test on 32 bits.
  abbrev pub write_inner : ℕ → ℕ → Writer → Writer
  write_inner count depth w =
      enter depth ▷ ensure_container_budget count ▷ write_container_header limit 5 count ▷ w

  -- `writeNativeMGetPayload`
  unfoldable pub write_mget : Option (List Bytes) → Items → ℕ → Writer
  write_mget keys args depth =
      let vs = mget_keys keys args in
      ensure_container_budget 1
      ▷ write_single_field_map limit (codes "keys")
      ▷ write_inner (count_items vs) (depth + 1) (write_items limit vs (depth + 1 + 1))

  unfoldable pub write_pairs : List (Value × Value) → ℕ → Writer
  write_pairs [] depth = done
  write_pairs ((k, v) ∷ ps) depth =
      write_inner 2 depth (write_value limit k (depth + 1) ▷ write_value limit v (depth + 1))
      ▷ write_pairs ps depth

  -- `writeNativeMSetPayload`; the field is written before the pairs are looked at.
  unfoldable pub write_mset : Option (List (Value × Value)) → ℕ → Writer
  write_mset pairs depth =
      ensure_container_budget 1 ▷ write_single_field_map limit (codes "pairs") ▷ (elim pairs [
        | none ↦ fail pair_mismatch
        | some ps ↦ write_inner (length ps) (depth + 1) (write_pairs ps (depth + 1 + 1))
      ])

  -- The map of a command and its arguments, in this order.
  unfoldable pub write_command : Bytes → ℕ → Items → ℕ → Writer
  write_command command count args depth =
      ensure_container_budget 2
      ▷ write_container_header limit 6 2
      ▷ write_map_key limit (codes "command")
      ▷ write_value limit (bytes command) (depth + 1)
      ▷ write_map_key limit (codes "args")
      ▷ write_inner count (depth + 1) (write_items limit args (depth + 1 + 1))

  -- `writeNativeKeyValueCommandPayload`
  unfoldable pub write_key_values : Bytes → Option (List (Value × Value)) → ℕ → Writer
  write_key_values command none depth = fail pair_mismatch
  write_key_values command (some ps) depth = write_command command (2 * length ps) (flat ps) depth

  -- The case of `writeNativeValue`, behind its `enter`.
  unfoldable pub write_payload : Payload → ℕ → Writer
  write_payload (mget keys args) depth = enter depth ▷ write_mget keys args depth
  write_payload (mset keys values args) depth =
      enter depth ▷ write_mset (mset_pairs keys values args) depth
  write_payload (key_values command keys values) depth =
      enter depth ▷ write_key_values command (zip_pairs keys values) depth
  write_payload (key_command command keys) depth =
      enter depth ▷ write_command command (length keys) (texts keys) depth

-- `encodeNativeValueWithLimit` of a payload.
unfoldable pub encode_payload : Payload → ℕ → Result EncodeError Bytes
encode_payload p limit =
    if limit == 0
    then err limit_not_positive
    else (write_payload limit p 0 (record { out = []; remaining = max_container_items }) >>= λ s.
        ok s.out)
