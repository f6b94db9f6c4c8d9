-- ===== src/Request/Executor/Reader.antt =====
-- Draining, cancellation, and the delivery of responses: native_pending.go and native_reader.go.
use ferricstore_go.Base.{
  ℕ, Bool, true, false, ◌&&◌, ◌||◌, not, List, [], ◌∷◌, ◌++◌, none, some, ◌==◌, if◌then◌else◌,
}
use ferricstore_go.Base.Dict.{nat_eq, lookup, insert, delete}
use ferricstore_go.Wire.Value.{Value}
use ferricstore_go.Frame.Header.{Frame}
use ferricstore_go.Frame.Response.{DecodeMode, generic, Response}
use ferricstore_go.Request.Executor.State.{
  RequestError, Effect, Pending, Executor, is_conn, release_effects, answer_effects,
  has_live_pending, connection_unavailable, unknown_request, mismatch, response, schedules_drain,
}
use ferricstore_go.Request.Executor.Removal.{close_with, close_if_current, close_if_idle}

-- The start of draining: GOAWAY is set, the heartbeat stops.
unfoldable pub start_drain : Executor → Executor
start_drain e = if e.go_away then e else record e { go_away = true; heartbeat = false }

-- `scheduleGoAwayDrain` runs where this call started to drain.
abbrev pub schedule : Bool → ℕ → Executor → Executor
schedule draining c e = if draining then e else record e { log = e.log ++ (schedules_drain c ∷ []) }

-- `cancelPendingDataRequest`
unfoldable pub cancel_pending_data_request : Executor → ℕ → ℕ → Executor
cancel_pending_data_request e id c = elim (lookup id e.pending) [
  | none ↦ e
  | some p ↦
      if is_conn e.conn c
      then schedule e.go_away c (
          close_if_idle (
            start_drain
              (record e { pending = insert id (record p { abandoned = true }) e.pending })))
      else record e { pending = delete id e.pending; log = e.log ++ release_effects p }
]

-- `handleGoAway`
unfoldable pub handle_go_away : Executor → ℕ → Executor
handle_go_away e c =
    if not (is_conn e.conn c) || e.go_away
    then e
    else schedule false c (close_if_idle (start_drain e))

-- `validateNativeWireFrameTuple`
pub data FrameTuple : Type 0 where
  stale : FrameTuple
  current : DecodeMode → FrameTuple
  rejected : RequestError → FrameTuple

abbrev pub matches : Pending → ℕ → ℕ → Bool
matches p opcode lane = p.opcode == opcode && p.lane_id == lane

unfoldable pub validate_frame_tuple : Executor → ℕ → Frame → FrameTuple
validate_frame_tuple e c frame =
    if not (is_conn e.conn c)
    then stale
    else if frame.request_id == 0
    then current generic
    else (elim (lookup frame.request_id e.pending) [
      | none ↦
          if frame.lane_id == 0
          then current generic
          else rejected (unknown_request frame.request_id)
      | some p ↦
          if matches p frame.opcode frame.lane_id
          then current p.decode_mode
          else rejected (mismatch frame.lane_id frame.opcode frame.request_id)
    ])

-- The effects on the request that was taken out, where draining may close the connection before them.
unfoldable pub settle : Executor → List Effect → Executor
settle e effects =
    if e.go_away && not (has_live_pending e.pending)
    then close_with e effects connection_unavailable
    else record e { log = e.log ++ effects }

-- The answer to a request in `readerLoop`, behind the assembler and the frames that the server initiates.
unfoldable pub deliver : Executor → ℕ → Response Value → Executor
deliver e c frame =
    if not (is_conn e.conn c) then e else (elim (lookup frame.request_id e.pending) [
      | none ↦ settle (record e { pending = delete frame.request_id e.pending }) []
      | some p ↦
          if not (matches p frame.opcode frame.lane_id)
          then close_if_current e c (mismatch frame.lane_id frame.opcode frame.request_id)
          else settle (record e { pending = delete frame.request_id e.pending })
              (release_effects p ++ answer_effects p (response frame))
    ])
