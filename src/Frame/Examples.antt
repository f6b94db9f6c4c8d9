-- ===== src/Frame/Examples.antt =====
-- Two responses whose chunks come interleaved, and their frames on the wire.
use ferricstore_go.Base.{
  ℕ, ◌≤◌, ◌≡◌, refl, true, List, [], ◌∷◌, ◌++◌, length, none, some, Result, ok, err, arith,
}
use ferricstore_go.Base.Bytes.{Bytes}
use ferricstore_go.Wire.Value.{Value, bool}
use ferricstore_go.Frame.Header.{
  Frame, unsupported_version, response_version, header, effective_limit, read_frame_with_limit,
  write_request,
}
use ferricstore_go.Frame.Response.{
  DecodeMode, generic, ResponseError, Response, decode_response, decode_generic, decode_custom,
  validate_response_flags, has_flag, clear_flag,
}
use ferricstore_go.Frame.Assembler.{
  Assembler, ChunkKey, chunk_key_eq, key_of, new_assembler, add, check_frame, open_state,
  add_opened, add_chunk, merge_flags, check_limits, collect, append_response_chunk,
  compaction_threshold, compact, store,
}
use ferricstore_go.Base.Dict.{lookup, insert, delete}
use ferricstore_go.Base.Bytes.{read_be}
use ferricstore_go.Wire.Decode.{decode_value, decode_value_with_limits, read_value, read_tagged}
use ferricstore_go.Base.{◌≢◌, ◌↔◌, ◌⊎◌}
use ferricstore_go.Frame.ServerInitiated.{
  op_event, op_go_away, validate_server_initiated, validate_server_initiated-none,
}
use ferricstore_go.Frame.RoundTrip.{
  IsWire, read_frame-header, read_frame-request, read_frame-bounded,
}
use ferricstore_go.Frame.Assembler.Invariant.{Inv, new_assembler-Inv, add-Inv}
use ferricstore_go.Frame.Assembler.Others.{add-others}
use ferricstore_go.Frame.Assembler.Reassembly.{run, TakesAll, bodies, collected, run-reassembles}

-- No compact codec.
abbrev decode_plain : Frame → Bytes → ℕ → DecodeMode → Result ResponseError (Response Value)
decode_plain = decode_response (λ v. v) (λ _ _ _. ok none)

abbrev chunk : ℕ → ℕ → Bytes → Frame
chunk flags request body = record {
  flags = flags;
  lane_id = 2;
  opcode = 9;
  request_id = request;
  body = body;
}

-- The response of request 7 comes as status and value, that of request 8 in between.
abbrev interleaved : List (Frame × DecodeMode)
interleaved = (chunk 0x20 7 (0 ∷ []), generic) ∷ (chunk 0x20 8 (0 ∷ 0 ∷ []), generic) ∷ []

abbrev key : ChunkKey
key = key_of (chunk 0 7 [])

abbrev empty : Assembler
empty = new_assembler 100 10

interleaved-TakesAll : TakesAll decode_plain key empty interleaved
unfolding run add check_frame validate_response_flags has_flag clear_flag open_state add_opened
    add_chunk merge_flags check_limits collect append_response_chunk compaction_threshold compact
    store new_assembler lookup insert delete decode_response decode_generic decode_custom
    decode_value decode_value_with_limits read_value read_tagged
interleaved-TakesAll = (λ _. refl, (λ _. refl, tt))

abbrev plain_response : Response Value
plain_response = record {
  flags = 0;
  lane_id = 2;
  opcode = 9;
  request_id = 7;
  status = 0;
  value = bool true;
  wire_bytes = 3;
}

limited : effective_limit 10 ≡ 10
unfolding effective_limit
limited = refl

answered :
    (add decode_plain (run decode_plain empty interleaved) (chunk 0 7 (0 ∷ 1 ∷ [])) generic).1
    ≡ ok (some (plain_response))
unfolding run add check_frame validate_response_flags has_flag clear_flag open_state add_opened
    add_chunk merge_flags check_limits collect append_response_chunk compaction_threshold compact
    store new_assembler lookup insert delete decode_response decode_generic decode_custom
    decode_value decode_value_with_limits read_value read_tagged read_be
answered = refl

chunk-IsWire : IsWire (chunk 0 7 (0 ∷ 1 ∷ []))
chunk-IsWire = record {
  lane = omega arith;
  operation = omega arith;
  request = omega arith;
  size = omega arith;
}

read_frame-header_example :
    read_frame_with_limit
      (header response_version (chunk 0 7 (0 ∷ 1 ∷ [])) ++ ((0 ∷ 1 ∷ []) ++ (5 ∷ [])))
      10
    ≡ ok (chunk 0 7 (0 ∷ 1 ∷ []), 5 ∷ [])
read_frame-header_example =
    read_frame-header (chunk 0 7 (0 ∷ 1 ∷ [])) (5 ∷ []) 10 chunk-IsWire (omega (arith, limited))

read_frame-request_example :
    read_frame_with_limit (write_request (chunk 0 7 (0 ∷ 1 ∷ [])) ++ []) 10
    ≡ err unsupported_version
read_frame-request_example = read_frame-request (chunk 0 7 (0 ∷ 1 ∷ [])) [] 10

add-Inv_example : Inv (add decode_plain empty (chunk 0x20 7 (0 ∷ [])) generic).0
add-Inv_example =
    add-Inv decode_plain empty (chunk 0x20 7 (0 ∷ [])) generic (new_assembler-Inv 100 10)

read_frame-bounded_example :
    (2 ≤ effective_limit 10)
    × (effective_limit 10 ≤ 134_217_728)
    × (length (header response_version (chunk 0 7 (0 ∷ 1 ∷ [])) ++ ((0 ∷ 1 ∷ []) ++ (5 ∷ []))) ≡ 27)
read_frame-bounded_example =
    read_frame-bounded
      (header response_version (chunk 0 7 (0 ∷ 1 ∷ [])) ++ ((0 ∷ 1 ∷ []) ++ (5 ∷ []))) (5 ∷ [])
      (chunk 0 7 (0 ∷ 1 ∷ [])) 10
      (read_frame-header (chunk 0 7 (0 ∷ 1 ∷ [])) (5 ∷ []) 10 chunk-IsWire (omega (arith, limited)))

run-reassembles_example :
    (first : Frame) × (flags : ℕ) × (m : DecodeMode) × (decode_plain first
        ((collected key empty ++ bodies decode_plain key interleaved) ++ (0 ∷ 1 ∷ []))
        flags
        m
      ≡ ok plain_response)
run-reassembles_example =
    run-reassembles decode_plain key empty interleaved (chunk 0 7 (0 ∷ 1 ∷ [])) generic
      plain_response interleaved-TakesAll refl answered

add-others_example :
    lookup (key_of (chunk 0 8 [])) (add decode_plain empty (chunk 0x20 7 (0 ∷ [])) generic).0.chunks
    ≡ lookup (key_of (chunk 0 8 [])) empty.chunks
add-others_example =
    add-others decode_plain (chunk 0x20 7 (0 ∷ [])) (key_of (chunk 0 8 [])) refl empty generic

abbrev event : Response Value
event = record plain_response { request_id = 0; opcode = op_event; lane_id = 0 }

validate_server_initiated-none_example : (validate_server_initiated event ≡ none) ↔ (
    (event.request_id ≢ 0)
    ⊎ ((event.lane_id ≡ 0)
        × (event.status ≡ 0)
        × ((event.opcode ≡ op_event) ⊎ (event.opcode ≡ op_go_away))))
validate_server_initiated-none_example = validate_server_initiated-none event
