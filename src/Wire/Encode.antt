-- ===== src/Wire/Encode.antt =====
-- The encoder, native_codec_wire.go. A writer takes the state of the encoder, the bytes written and
-- the items that may still be entered, to the next state or to an error.
-- `nativeEncodeState.visiting` finds reference cycles; a `Value` is a tree, in which none exist.
use ferricstore_go.Base.{
  ℕ, ◌+◌, ◌-◌, ◌*◌, ◌^◌, Bool, true, false, List, [], ◌∷◌, ◌++◌, length, Result, ok, err, ◌>>=◌,
  ltb, leb, ◌==◌, if◌then◌else◌,
}
use ferricstore_go.Base.Int.{ℤ, pos, to_word}
use ferricstore_go.Base.Bytes.{Bytes, be}
use ferricstore_go.Wire.Value.{
  Value, Items, Fields, null, bool, int, uint, float, bytes, arr, obj, nil, cons, end, field,
  count_items, count_fields,
}
use ferricstore_go.Wire.Keys.{sort_keys}

abbrev pub max_encode_depth : ℕ
max_encode_depth = 64

-- `nativeMaxContainerItems`, of native.go.
abbrev pub max_container_items : ℕ
max_container_items = 1_000_000

-- `nativeMaxFrameBytes`, of native.go.
abbrev pub max_frame_bytes : ℕ
max_frame_bytes = 128 * 1024 * 1024

pub data EncodeError : Type 0 where
  limit_not_positive body_limit nesting_depth item_count aggregate_items too_large : EncodeError
  pair_mismatch : EncodeError

pub record Encoder : Type 0 where
  pub out : Bytes
  pub remaining : ℕ

abbrev pub Writer : Type 0
Writer = Encoder → Result EncodeError Encoder

-- One write after the other; the first error is returned.
infixr 6 ◌▷◌
abbrev pub ◌▷◌ : Writer → Writer → Writer
◌▷◌ f g s = f s >>= g

abbrev pub done : Writer
done s = ok s

abbrev pub fail : EncodeError → Writer
fail e s = err e

-- `enter`: the depth first, then the item that is counted off.
unfoldable pub enter : ℕ → Writer
enter depth s =
    if ltb max_encode_depth depth
    then err nesting_depth
    else if s.remaining == 0
    then err item_count
    else ok (record s { remaining = s.remaining - 1 })

unfoldable pub ensure_container_budget : ℕ → Writer
ensure_container_budget count s = if ltb s.remaining count then err aggregate_items else ok s

-- `uint64(n) > math.MaxUint32`.
unfoldable pub ensure_u32 : ℕ → Writer
ensure_u32 n s = if leb (2 ^ 32) n then err too_large else ok s

module _ (limit : ℕ) where
  -- `ensure` and the write, also for `writeByte` and `writeString`.
  unfoldable pub write : Bytes → Writer
  write value s =
      if ltb limit (length s.out + length value)
      then err body_limit
      else ok (record s { out = s.out ++ value })

  unfoldable pub write_byte : ℕ → Writer
  write_byte b = write (b ∷ [])

  unfoldable pub write_container_header : ℕ → ℕ → Writer
  write_container_header tag count = write_byte tag ▷ write (be 4 count)

  unfoldable pub write_int : ℤ → Writer
  write_int z = write_byte 3 ▷ write (be 8 (to_word z))

  unfoldable pub write_uint : ℕ → Writer
  write_uint n = if ltb n (2 ^ 63) then write_int (pos n) else write_byte 8 ▷ write (be 8 n)

  unfoldable pub write_float : ℕ → Writer
  write_float bits = write_byte 7 ▷ write (be 8 bits)

  unfoldable pub write_bytes : Bytes → Writer
  write_bytes value =
      ensure_u32 (length value) ▷ write_container_header 4 (length value) ▷ write value

  unfoldable pub write_bool : Bool → Writer
  write_bool true = write_byte 1
  write_bool false = write_byte 2

  unfoldable pub write_map_key : Bytes → Writer
  write_map_key key = ensure_u32 (length key) ▷ write (be 4 (length key)) ▷ write key

  unfoldable pub write_single_field_map : Bytes → Writer
  write_single_field_map key = write_container_header 6 1 ▷ write_map_key key

  -- The loop over the sorted keys of a map, each with the writer of its value.
  unfoldable pub write_entries : List (Bytes × Writer) → Writer
  write_entries [] = done
  write_entries ((k, w) ∷ es) = write_map_key k ▷ w ▷ write_entries es

  -- `writeNativeValue`, with `writeNativeArray` and `writeNativeMap`.
  unfoldable mutual
    pub write_value : Value → ℕ → Writer
    write_value null depth = enter depth ▷ write_byte 0
    write_value (bool b) depth = enter depth ▷ write_bool b
    write_value (int z) depth = enter depth ▷ write_int z
    write_value (uint n) depth = enter depth ▷ write_uint n
    write_value (float bits) depth = enter depth ▷ write_float bits
    write_value (bytes b) depth = enter depth ▷ write_bytes b
    write_value (arr vs) depth =
        enter depth
        ▷ ensure_u32 (count_items vs)
        ▷ ensure_container_budget (count_items vs)
        ▷ write_container_header 5 (count_items vs)
        ▷ write_items vs (depth + 1)
    write_value (obj fs) depth =
        enter depth
        ▷ ensure_u32 (count_fields fs)
        ▷ ensure_container_budget (count_fields fs)
        ▷ write_container_header 6 (count_fields fs)
        ▷ write_entries (sort_keys (field_writers fs (depth + 1)))

    pub write_items : Items → ℕ → Writer
    write_items nil depth = done
    write_items (cons v vs) depth = write_value v depth ▷ write_items vs depth

    pub field_writers : Fields → ℕ → List (Bytes × Writer)
    field_writers end depth = []
    field_writers (field k v fs) depth = (k, write_value v depth) ∷ field_writers fs depth

-- `encodeNativeValueWithLimit`; the size hint of `nativeEncodedSize` only preallocates.
unfoldable pub encode_value_with_limit : Value → ℕ → Result EncodeError Bytes
encode_value_with_limit v limit =
    if limit == 0
    then err limit_not_positive
    else (write_value limit v 0 (record { out = []; remaining = max_container_items }) >>= λ s.
        ok s.out)

unfoldable pub encode_value : Value → Result EncodeError Bytes
encode_value v = encode_value_with_limit v max_frame_bytes
