-- ===== src/Wire/Decode.antt =====
-- The decoder, native_codec_decode.go, with `nativeBoundedItemCount` of native_frame.go.
-- The result is the value, the bytes that follow it and the items that may still be read.
use ferricstore_go.Base.{
  ℕ, zero, suc, ◌+◌, ◌-◌, ◌*◌, true, false, List, [], ◌∷◌, ◌++◌, length, take, drop, Result, ok,
  err, ◌>>=◌, ltb, ◌==◌, if◌then◌else◌,
}
use ferricstore_go.Base.Int.{of_word}
use ferricstore_go.Base.Bytes.{Bytes, read_be}
use ferricstore_go.Wire.Value.{
  Value, Items, null, bool, int, uint, float, bytes, arr, obj, nil, cons, of_entries, has_key,
}
use ferricstore_go.Wire.Encode.{max_container_items}

abbrev pub max_decode_depth : ℕ
max_decode_depth = 64

pub data DecodeError : Type 0 where
  invalid_limits empty nesting_depth aggregate_items truncated : DecodeError
  item_count_limit item_count_payload duplicate_key unknown_tag : DecodeError

abbrev pub Read : Type 0 → Type 0
Read A = Result DecodeError (A × Bytes × ℕ)

-- A big-endian integer of `n` bytes, if that many are left.
unfoldable pub read_uint : ℕ → Bytes → Result DecodeError (ℕ × Bytes)
read_uint n rest =
    if ltb (length rest) n then err truncated else ok (read_be 0 (take n rest), drop n rest)

-- `size` bytes, if that many are left.
unfoldable pub read_bytes : ℕ → Bytes → Result DecodeError (Bytes × Bytes)
read_bytes size rest =
    if ltb (length rest) size then err truncated else ok (take size rest, drop size rest)

-- `nativeBoundedItemCount`, with a positive `minBytesPerItem`; the product fits 64 bits, as
-- `raw` is at most 1000000 there.
unfoldable pub bounded_item_count : ℕ → ℕ → ℕ → Result DecodeError ℕ
bounded_item_count raw remaining_bytes min_bytes =
    if ltb max_container_items raw
    then err item_count_limit
    else if ltb remaining_bytes (raw * min_bytes)
    then err item_count_payload
    else ok raw

-- The count of a container, checked against the bytes that follow and the items left.
unfoldable pub read_count : ℕ → Bytes → ℕ → Result DecodeError (ℕ × Bytes)
read_count min_bytes rest remaining = read_uint 4 rest >>= λ (raw, rest').
    bounded_item_count raw (length rest') min_bytes >>= λ count.
    if ltb remaining count then err aggregate_items else ok (count, rest')

-- The loops over the items of an array and over the entries of a map; `read` decodes one value.
module _ (read : Bytes → ℕ → Read Value) where
  unfoldable pub read_items : ℕ → Bytes → ℕ → Read Items
  read_items zero rest remaining = ok (nil, rest, remaining)
  read_items (suc count) rest remaining = read rest remaining >>= λ (v, rest', remaining').
      read_items count rest' remaining' >>= λ (vs, rest'', remaining'').
      ok (cons v vs, rest'', remaining'')

  -- `mapping` holds the entries read so far, the first one first.
  unfoldable pub read_entries : ℕ → List (Bytes × Value) → Bytes → ℕ → Read (List (Bytes × Value))
  read_entries zero mapping rest remaining = ok (mapping, rest, remaining)
  read_entries (suc count) mapping rest remaining = read_uint 4 rest >>= λ (size, rest₁).
      read_bytes size rest₁ >>= λ (key, rest₂).
      let more : Read (List (Bytes × Value)) = read rest₂ remaining >>= λ (v, rest₃, remaining').
      read_entries count (mapping ++ ((key, v) ∷ [])) rest₃ remaining' in
      if has_key key mapping then err duplicate_key else more

  -- The `switch` on the tag.
  unfoldable pub read_tagged : ℕ → Bytes → ℕ → Read Value
  read_tagged tag rest remaining =
      if tag == 0
      then ok (null, rest, remaining)
      else if tag == 1
      then ok (bool true, rest, remaining)
      else if tag == 2
      then ok (bool false, rest, remaining)
      else if tag == 3
      then (read_uint 8 rest >>= λ (w, rest'). ok (int (of_word w), rest', remaining))
      else if tag == 4
      then (read_uint 4 rest >>= λ (size, rest').
          read_bytes size rest' >>= λ (b, rest''). ok (bytes b, rest'', remaining))
      else if tag == 5
      then (read_count 1 rest remaining >>= λ (count, rest').
          read_items count rest' remaining >>= λ (vs, rest'', remaining'').
          ok (arr vs, rest'', remaining''))
      else if tag == 6
      then (read_count 5 rest remaining >>= λ (count, rest').
          read_entries count [] rest' remaining >>= λ (es, rest'', remaining'').
          ok (obj (of_entries es), rest'', remaining''))
      else if tag == 7
      then (read_uint 8 rest >>= λ (w, rest'). ok (float w, rest', remaining))
      else if tag == 8
      then (read_uint 8 rest >>= λ (w, rest'). ok (uint w, rest', remaining))
      else err unknown_tag

-- `decodeNativeValueBudget`. `levels` is `maxDepth + 1 - depth`, so 0 where `depth > maxDepth`.
unfoldable pub read_value : ℕ → Bytes → ℕ → Read Value
read_value levels [] remaining = err empty
read_value zero (tag ∷ rest) remaining = err nesting_depth
read_value (suc levels) (tag ∷ rest) remaining =
    if remaining == 0
    then err aggregate_items
    else read_tagged (read_value levels) tag rest (remaining - 1)

-- `decodeNativeValueWithLimits`; whether binaries are copied does not show in their bytes.
unfoldable pub decode_value_with_limits : Bytes → ℕ → ℕ → Result DecodeError (Value × Bytes)
decode_value_with_limits input max_depth max_items =
    if max_items == 0
    then err invalid_limits
    else (read_value (max_depth + 1) input max_items >>= λ (v, rest, remaining). ok (v, rest))

unfoldable pub decode_value : Bytes → Result DecodeError (Value × Bytes)
decode_value input = decode_value_with_limits input max_decode_depth max_container_items
