-- ===== src/Frame/Assembler.antt =====
-- The assembler of chunked responses, native_frame.go. A method takes the assembler and gives the
-- one it leaves behind, also where it fails. Slices are lists, so capacities do not show.
pub mod Invariant
pub mod Others
pub mod Reassembly
use ferricstore_go.Base.{
  ℕ, ◌+◌, ◌-◌, ◌/◌, max, List, [], ◌∷◌, ◌++◌, length, Bool, true, false, ◌&&◌, ◌||◌, not, Option,
  none, some, Result, ok, err, ltb, leb, ◌==◌, ==_iff, if◌then◌else◌, ◌≡◌, ◌↔◌, arith,
}
use Prim.Native.Nat.{bit_and, bit_or}
use ferricstore_go.Base.Bytes.{Bytes}
use ferricstore_go.Base.Dict.{Eq, lookup, insert, delete}
use ferricstore_go.Frame.Header.{Frame}
use ferricstore_go.Frame.Response.{
  DecodeMode, generic, flow_query, ResponseError, Response, validate_response_flags, has_flag,
  clear_flag, stable_chunk_flags, flag_more_chunks, body_too_large, frame_limit_invalid,
  buffered_too_large, too_many_frames, too_many_buffered_frames, flags_changed, mode_changed,
}

pub record ChunkKey : Type 0 where
  pub request_id : ℕ
  pub opcode : ℕ
  pub lane_id : ℕ

abbrev pub same_key : ChunkKey → ChunkKey → Bool
same_key a b = a.request_id == b.request_id && (a.opcode == b.opcode && a.lane_id == b.lane_id)

pub same_key_iff : (a b : ChunkKey) → (same_key a b ≡ true) ↔ (a ≡ b)
same_key_iff a b = ground arith

instance abbrev pub chunk_key_eq : Eq ChunkKey
chunk_key_eq = record { beq = same_key; beq_iff = same_key_iff }

abbrev pub same_mode : DecodeMode → DecodeMode → Bool
same_mode generic generic = true
same_mode flow_query flow_query = true
same_mode _ _ = false

pub record ChunkState : Type 0 where
  pub first : Frame
  pub parts : List Bytes
  pub body : Option Bytes
  pub bytes : ℕ
  pub frames : ℕ
  pub decode_mode : DecodeMode

pub record Assembler : Type 0 where
  pub max_bytes : ℕ
  pub max_frames : ℕ
  pub chunks : List (ChunkKey × ChunkState)
  pub buffered_bytes : ℕ
  pub buffered_frames : ℕ

unfoldable pub new_assembler : ℕ → ℕ → Assembler
new_assembler max_bytes max_frames = record {
  max_bytes = max_bytes;
  max_frames = max_frames;
  chunks = [];
  buffered_bytes = 0;
  buffered_frames = 0;
}

abbrev pub flatten : List Bytes → Bytes
flatten [] = []
flatten (p ∷ ps) = p ++ flatten ps

-- The bytes that a state has collected.
abbrev pub content : ChunkState → Bytes
content s = elim s.body [ none ↦ flatten s.parts | some b ↦ b ]

unfoldable pub compaction_threshold : Assembler → ℕ
compaction_threshold a = max 1 (a.max_bytes / 2)

unfoldable pub compact : ChunkState → ChunkState
compact s = record s { body = some (flatten s.parts); parts = [] }

unfoldable pub append_response_chunk : Bytes → Bytes → ℕ → Result ResponseError Bytes
append_response_chunk body next limit =
    if ltb limit (length body + length next) then err body_too_large else ok (body ++ next)

abbrev pub key_of : Frame → ChunkKey
key_of f = record { request_id = f.request_id; opcode = f.opcode; lane_id = f.lane_id }

abbrev pub more_chunks : Frame → Bool
more_chunks f = has_flag f.flags flag_more_chunks

-- What `add` finds: no state and a single frame, a state to go on with, or an error.
pub data Opened : Type 0 where
  single : Opened
  chunked : ChunkState → Opened
  refused : ResponseError → Opened

unfoldable pub open_state : Assembler → Frame → DecodeMode → Opened
open_state a f mode = elim (lookup (key_of f) a.chunks) [
  | none ↦
      if more_chunks f
      then chunked (record {
        first = record f { body = [] };
        parts = [];
        body = none;
        bytes = 0;
        frames = 0;
        decode_mode = mode;
      })
      else single
  | some s ↦
      if not (bit_and s.first.flags stable_chunk_flags == bit_and f.flags stable_chunk_flags)
      then refused flags_changed
      else if not (same_mode s.decode_mode mode)
      then refused mode_changed
      else chunked s
]

-- The limits on one response and on all buffered ones.
unfoldable pub check_limits : Assembler → ChunkState → Frame → Option ResponseError
check_limits a s f =
    if ltb a.max_bytes (s.bytes + length f.body)
    then some body_too_large
    else if leb a.max_frames s.frames
    then some too_many_frames
    else if ltb a.max_bytes (a.buffered_bytes + length f.body)
    then some buffered_too_large
    else if leb a.max_frames a.buffered_frames
    then some too_many_buffered_frames
    else none

-- The chunk is taken in, or the state loses its body where `append_response_chunk` fails; `state.first.flags |= frame.flags` came before the limits.
unfoldable pub collect : Assembler → ChunkState → Frame → Result ResponseError ChunkState
collect a s f =
    let counted =
      λ (t : ChunkState). record t { bytes = s.bytes + length f.body; frames = s.frames + 1 } in
    elim s.body [
      | some b ↦ elim (append_response_chunk b f.body a.max_bytes) [
        | err e ↦ err e
        | ok b' ↦ ok (counted (record s { body = some b' }))
      ]
      | none ↦
          let t = counted (record s { parts = s.parts ++ (f.body ∷ []) }) in
          ok (if leb (compaction_threshold a) t.bytes then compact t else t)
    ]

unfoldable pub merge_flags : ChunkState → Frame → ChunkState
merge_flags s f = record s { first = record (s.first) { flags = bit_or s.first.flags f.flags } }

-- The tests on the frame alone.
unfoldable pub check_frame : Assembler → Frame → Option ResponseError
check_frame a f = elim (validate_response_flags f.flags true) [
  | err e ↦ some e
  | ok _ ↦
      if a.max_bytes == 0 || ltb a.max_bytes (length f.body)
      then some body_too_large
      else if a.max_frames == 0
      then some frame_limit_invalid
      else none
]

module _ {V : Type 0}
    (decode : Frame → Bytes → ℕ → DecodeMode → Result ResponseError (Response V)) where
  abbrev pub Reply : Type 0
  Reply = Result ResponseError (Option (Response V))

  abbrev pub finish : Result ResponseError (Response V) → Reply
  finish (ok r) = ok (some r)
  finish (err e) = err e

  -- A response in one frame; nothing is stored.
  unfoldable pub add_single : Assembler → Frame → DecodeMode → Assembler × Reply
  add_single a f mode =
      if ltb a.max_bytes (a.buffered_bytes + length f.body)
      then (a, err buffered_too_large)
      else if leb a.max_frames a.buffered_frames
      then (a, err too_many_buffered_frames)
      else (a, finish (decode f f.body f.flags mode))

  -- The state with the chunk in it is stored, or taken out and decoded after the last chunk.
  unfoldable pub store : Assembler → ChunkState → Frame → Assembler × Reply
  store a s f =
      let a' = record a {
        chunks = insert (key_of f) s a.chunks;
        buffered_bytes = a.buffered_bytes + length f.body;
        buffered_frames = a.buffered_frames + 1;
      } in
      if more_chunks f then (a', ok none) else (
        record a' {
          chunks = delete (key_of f) a'.chunks;
          buffered_bytes = a'.buffered_bytes - s.bytes;
          buffered_frames = a'.buffered_frames - s.frames;
        },
        finish (
            decode s.first (content s) (clear_flag (bit_or s.first.flags f.flags) flag_more_chunks)
              s.decode_mode),
      )

  unfoldable pub add_chunk : Assembler → ChunkState → Frame → Assembler × Reply
  add_chunk a s f =
      let s' = merge_flags s f in
      let kept = record a { chunks = insert (key_of f) s' a.chunks } in
      elim (check_limits a s' f) [
        | some e ↦ (kept, err e)
        | none ↦ elim (collect a s' f) [
          | err e ↦
              (record a { chunks = insert (key_of f) (record s' { body = none }) a.chunks }, err e)
          | ok t ↦ store a t f
        ]
      ]

  unfoldable pub add_opened : Assembler → Frame → DecodeMode → Opened → Assembler × Reply
  add_opened a f mode single = add_single a f mode
  add_opened a f mode (refused e) = (a, err e)
  add_opened a f mode (chunked s) = add_chunk a s f

  -- `addWithDecodeMode`
  unfoldable pub add : Assembler → Frame → DecodeMode → Assembler × Reply
  add a f mode = elim (check_frame a f) [
    | some e ↦ (a, err e)
    | none ↦ add_opened a f mode (open_state a f mode)
  ]
