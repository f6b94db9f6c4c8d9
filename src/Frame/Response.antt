-- ===== src/Frame/Response.antt =====
-- Responses: their flags, and the decoding of a complete body (native_response.go). The compact
-- codecs behind `decodeNativeCompactResponseWithMode` are the argument `compact`.
use ferricstore_go.Base.{
  ℕ, ◌-◌, length, take, drop, Bool, false, ◌&&◌, ◌||◌, not, Option, none, some, Result, ok, err,
  ◌>>=◌, ltb, ◌==◌, if◌then◌else◌,
}
use Prim.Native.Nat.{bit_and}
use ferricstore_go.Base.Bytes.{Bytes, read_be}
use ferricstore_go.Wire.Value.{Value}
use ferricstore_go.Wire.Decode.{decode_value}
use ferricstore_go.Frame.Header.{Frame}

-- The bits of native.go; bytes have eight of them.
abbrev pub flag_custom_payload : ℕ
flag_custom_payload = 0x02

abbrev pub flag_compressed : ℕ
flag_compressed = 0x08

abbrev pub flag_no_reply : ℕ
flag_no_reply = 0x10

abbrev pub flag_more_chunks : ℕ
flag_more_chunks = 0x20

-- `nativeFlagTrace | nativeFlagCustomPayload | nativeFlagWarning`
abbrev pub stable_chunk_flags : ℕ
stable_chunk_flags = 0x07

-- The stable flags, `nativeFlagCompressed` and `nativeFlagMoreChunks`.
abbrev pub response_wire_flags : ℕ
response_wire_flags = 0x2f

-- `flags & mask != 0`
unfoldable pub has_flag : ℕ → ℕ → Bool
has_flag flags mask = not (bit_and flags mask == 0)

-- `flags &^ mask` on bytes.
unfoldable pub clear_flag : ℕ → ℕ → ℕ
clear_flag flags mask = bit_and flags (0xff - mask)

pub data DecodeMode : Type 0 where
  generic flow_query : DecodeMode

pub data ResponseError : Type 0 where
  unsupported_flags still_chunked body_too_large frame_limit_invalid : ResponseError
  buffered_too_large too_many_frames too_many_buffered_frames : ResponseError
  flags_changed mode_changed compressed truncated custom_empty : ResponseError
  unsupported_marker trailing_bytes invalid_value : ResponseError

-- `err` of Go's struct is set for local failures only.
pub record Response (V : Type 0) : Type 0 where
  pub flags : ℕ
  pub lane_id : ℕ
  pub opcode : ℕ
  pub request_id : ℕ
  pub status : ℕ
  pub value : V
  pub wire_bytes : ℕ

-- `validateNativeResponseFlags`
unfoldable pub validate_response_flags : ℕ → Bool → Result ResponseError (Unit {0})
validate_response_flags flags chunks_allowed =
    if not (clear_flag flags response_wire_flags == 0) || has_flag flags flag_no_reply
    then err unsupported_flags
    else if not chunks_allowed && has_flag flags flag_more_chunks
    then err still_chunked
    else ok tt

-- `nativeStatusOK`
abbrev pub status_ok : ℕ
status_ok = 0

-- The compact decoder gives a value, no codec for the marker, or an error. `lift` makes a generic
-- value one of the client's.
module _ {V : Type 0} (lift : Value → V)
    (compact : ℕ → Bytes → DecodeMode → Result ResponseError (Option V)) where
  -- `decodeNativeOwnedValue` on the whole rest of the body.
  unfoldable pub decode_generic : Bytes → Result ResponseError V
  decode_generic input = elim (decode_value input) [
    | err e ↦ err invalid_value
    | ok (v, rest) ↦ if length rest == 0 then ok (lift v) else err trailing_bytes
  ]

  unfoldable pub decode_custom : ℕ → ℕ → DecodeMode → Bytes → Result ResponseError V
  decode_custom opcode status mode input =
      if length input == 0
      then err custom_empty
      else (compact opcode input (if status == status_ok then mode else generic) >>= λ found.
          elim found [ none ↦ err unsupported_marker | some v ↦ ok v ])

  -- `decodeNativeResponseFrameWithCodecsAndMode`; a mode is one of the two by its type.
  unfoldable pub decode_response :
      Frame → Bytes → ℕ → DecodeMode → Result ResponseError (Response V)
  decode_response first body flags mode = validate_response_flags flags false >>= λ _.
      if has_flag flags flag_compressed
      then err compressed
      else if ltb (length body) 2
      then err truncated
      else (let status = read_be 0 (take 2 body) in
          (if has_flag flags flag_custom_payload
            then decode_custom first.opcode status mode (drop 2 body)
            else decode_generic (drop 2 body))
          >>= λ value. ok (record {
            flags = flags;
            lane_id = first.lane_id;
            opcode = first.opcode;
            request_id = first.request_id;
            status = status;
            value = value;
            wire_bytes = length body;
          }))
