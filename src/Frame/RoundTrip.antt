-- ===== src/Frame/RoundTrip.antt =====
-- The reader takes a frame apart as the header was laid out.
use ferricstore_go.Base.{
  ℕ, ◌+◌, ◌≤◌, ◌<◌, ◌^◌, ◌≡◌, refl, ◌++◌, length, take, drop, append_assoc, take-append,
  drop-append, length-append, length-take, length-drop, true, ok, err, ltb-false, arith,
}
use ferricstore_go.Base.Bytes.{Bytes, be, read_be, length-be, read_be-be, bytes_eq, bytes_eq_iff}
use ferricstore_go.Frame.Header.{
  Frame, unsupported_version, magic, response_version, request_version, header, read_full,
  header_field, get_byte, effective_limit, read_frame_with_limit, write_request,
}

-- The fields of a frame fit their places on the wire.
pub record IsWire (f : Frame) : Type 0 where
  pub lane : f.lane_id < 2 ^ 32
  pub operation : f.opcode < 2 ^ 16
  pub request : f.request_id < 2 ^ 64
  pub size : length f.body < 2 ^ 32

read_full-append : (n : ℕ) (b rest : Bytes) → length b ≡ n → read_full n (b ++ rest) ≡ ok (b, rest)
unfolding read_full
read_full-append n b rest e = rw (
  ltb-false (length (b ++ rest)) n (omega (arith, length-append b rest)),
  take-append n b rest e,
  drop-append n b rest e,
)

length-header : (version : ℕ) (f : Frame) → length (header version f) ≡ 24
unfolding header
length-header version f = omega (
  arith,
  length-append (be 4 f.lane_id) (be 2 f.opcode ++ (be 8 f.request_id ++ be 4 (length f.body))),
  length-append (be 2 f.opcode) (be 8 f.request_id ++ be 4 (length f.body)),
  length-append (be 8 f.request_id) (be 4 (length f.body)),
  length-be 4 f.lane_id,
  length-be 2 f.opcode,
  length-be 8 f.request_id,
  length-be 4 (length f.body),
)

-- Bytes laid out at one offset are read as the number that was laid out.
field-be : (k n : ℕ) (tail : Bytes) → n < 256 ^ k → read_be 0 (take k (be k n ++ tail)) ≡ n
field-be k n tail h = rw (take-append k (be k n) tail (length-be k n)) (read_be-be k n h)

field_lane : (version : ℕ) (f : Frame) → IsWire f → header_field (header version f) 6 10 ≡ f.lane_id
unfolding header
field_lane version f w = field-be 4 f.lane_id _ w.lane

field_opcode :
    (version : ℕ) (f : Frame) → IsWire f → header_field (header version f) 10 12 ≡ f.opcode
unfolding header be
field_opcode version f w =
    field-be 2 f.opcode (be 8 f.request_id ++ be 4 (length f.body)) w.operation

field_request :
    (version : ℕ) (f : Frame) → IsWire f → header_field (header version f) 12 20 ≡ f.request_id
unfolding header be
field_request version f w = field-be 8 f.request_id (be 4 (length f.body)) w.request

field_size :
    (version : ℕ) (f : Frame) → IsWire f → header_field (header version f) 20 24 ≡ length f.body
unfolding header be
field_size version f w = read_be-be 4 (length f.body) w.size

header-magic : (version : ℕ) (f : Frame) → bytes_eq (take 4 (header version f)) magic ≡ true
unfolding header
header-magic version f = (bytes_eq_iff magic magic).1 refl

header-version : (version : ℕ) (f : Frame) → get_byte (header version f) 4 ≡ version
unfolding header
header-version version f = refl

header-flags : (version : ℕ) (f : Frame) → get_byte (header version f) 5 ≡ f.flags
unfolding header
header-flags version f = refl

-- A frame under the response version, with fields that fit the header and a body within the limit,
-- is read back whole, and the bytes behind it are left.
pub read_frame-header :
    (f : Frame) (rest : Bytes) (limit : ℕ)
    → IsWire f
    → length f.body ≤ effective_limit limit
    → read_frame_with_limit (header response_version f ++ (f.body ++ rest)) limit ≡ ok (f, rest)
unfolding read_frame_with_limit
read_frame-header f rest limit w fits = rw (
  read_full-append 24 (header response_version f) (f.body ++ rest)
      (length-header response_version f),
  header-magic response_version f,
  header-version response_version f,
  header-flags response_version f,
  field_lane response_version f w,
  field_opcode response_version f w,
  field_request response_version f w,
  field_size response_version f w,
  ltb-false (effective_limit limit) (length f.body) fits,
  read_full-append (length f.body) f.body rest refl,
)

-- The client's own requests are never taken for responses: their version byte is another.
pub read_frame-request :
    (f : Frame) (rest : Bytes) (limit : ℕ)
    → read_frame_with_limit (write_request f ++ rest) limit ≡ err unsupported_version
unfolding read_frame_with_limit write_request
read_frame-request f rest limit = rw (
  append_assoc (header request_version f) f.body rest,
  read_full-append 24 (header request_version f) (f.body ++ rest) (length-header request_version f),
  header-magic request_version f,
  header-version request_version f,
)

-- No frame that is read is longer than the limit in force, which never passes 128 MiB.
pub read_frame-bounded :
    (input rest : Bytes) (f : Frame) (limit : ℕ)
    → read_frame_with_limit input limit ≡ ok (f, rest)
    → (length f.body ≤ effective_limit limit)
      × (effective_limit limit ≤ 134_217_728)
      × (length input ≡ 24 + length f.body + length rest)
unfolding read_frame_with_limit read_full effective_limit
read_frame-bounded input rest f limit e = ground (
  arith,
  length-drop 24 input,
  length-take (header_field (take 24 input) 20 24) (drop 24 input),
  length-drop (header_field (take 24 input) 20 24) (drop 24 input),
)
