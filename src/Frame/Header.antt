-- ===== src/Frame/Header.antt =====
-- The 24-byte header in front of every frame, and `readNativeFrameWithLimit`.
use ferricstore_go.Base.{
  ℕ, zero, suc, ◌-◌, [], ◌∷◌, ◌++◌, length, take, drop, ◌||◌, Result, ok, err, ◌>>=◌, ltb, ◌==◌,
  if◌then◌else◌, not,
}
use ferricstore_go.Base.Bytes.{Bytes, codes, be, read_be, bytes_eq}
use ferricstore_go.Wire.Encode.{max_frame_bytes}

pub record Frame : Type 0 where
  pub flags : ℕ
  pub lane_id : ℕ
  pub opcode : ℕ
  pub request_id : ℕ
  pub body : Bytes

pub data FrameError : Type 0 where
  eof invalid_magic unsupported_version frame_limit : FrameError

abbrev pub magic : Bytes
magic = codes "FSNP"

abbrev pub request_version : ℕ
request_version = 0x01

abbrev pub response_version : ℕ
response_version = 0x81

abbrev pub header_len : ℕ
header_len = 24

-- The header fields as `writeRequest` lays them out, with the version byte left open.
unfoldable pub header : ℕ → Frame → Bytes
header version f =
    magic
    ++ (version
        ∷ f.flags
        ∷ (be 4 f.lane_id ++ (be 2 f.opcode ++ (be 8 f.request_id ++ be 4 (length f.body)))))

-- What goes to the writer for a request: the header, then the body if there is one.
unfoldable pub write_request : Frame → Bytes
write_request f = header request_version f ++ f.body

-- `io.ReadFull` of `n` bytes: the bytes and those that follow.
unfoldable pub read_full : ℕ → Bytes → Result FrameError (Bytes × Bytes)
read_full n input = if ltb (length input) n then err eof else ok (take n input, drop n input)

-- `header[from:to]` as a big-endian integer.
abbrev pub header_field : Bytes → ℕ → ℕ → ℕ
header_field h from to = read_be 0 (take (to - from) (drop from h))

abbrev pub get_byte : Bytes → ℕ → ℕ
get_byte [] i = 0
get_byte (b ∷ bs) zero = b
get_byte (b ∷ bs) (suc i) = get_byte bs i

unfoldable pub effective_limit : ℕ → ℕ
effective_limit max_body_bytes =
    if max_body_bytes == 0 || ltb max_frame_bytes max_body_bytes
    then max_frame_bytes
    else max_body_bytes

-- `readNativeFrameWithLimit` on the bytes that the connection delivers.
unfoldable pub read_frame_with_limit : Bytes → ℕ → Result FrameError (Frame × Bytes)
read_frame_with_limit input max_body_bytes = read_full header_len input >>= λ (h, rest).
    if not (bytes_eq (take 4 h) magic)
    then err invalid_magic
    else if not (get_byte h 4 == response_version)
    then err unsupported_version
    else (let body_len = header_field h 20 24 in
        if ltb (effective_limit max_body_bytes) body_len
        then err frame_limit
        else (read_full body_len rest >>= λ (body, rest'). ok (
          record {
            flags = get_byte h 5;
            lane_id = header_field h 6 10;
            opcode = header_field h 10 12;
            request_id = header_field h 12 20;
            body = body;
          },
          rest',
        )))
