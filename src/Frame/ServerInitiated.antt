-- ===== src/Frame/ServerInitiated.antt =====
-- Frames that the server sends on its own, native_response.go: what the reserved request number 0 may carry.
use ferricstore_go.Base.{
  ℕ, ◌≡◌, ◌≢◌, ◌↔◌, ◌⊎◌, ◌&&◌, ◌||◌, not, Option, none, some, ◌==◌, if◌then◌else◌, arith,
}
use ferricstore_go.Frame.Response.{Response, status_ok}

-- `nativeOpEvent` and `nativeOpGoAway`
abbrev pub op_event : ℕ
op_event = 0x0010

abbrev pub op_go_away : ℕ
op_go_away = 0x000a

pub data ServerFrameError : Type 0 where
  connection_error data_lane bad_status : ℕ → ServerFrameError
  reserved_request : ℕ → ServerFrameError

module _ {V : Type 0} where
  -- `nativeConnectionLevelError`
  unfoldable pub connection_level_error : Response V → Option ServerFrameError
  connection_level_error r =
      if r.request_id == 0 && (r.opcode == 0 && (r.lane_id == 0 && not (r.status == status_ok)))
      then some (connection_error r.status)
      else none

  -- `validateNativeServerInitiatedResponse`; no error is `none`.
  unfoldable pub validate_server_initiated : Response V → Option ServerFrameError
  validate_server_initiated r =
      if not (r.request_id == 0) then none else (elim (connection_level_error r) [
        | some e ↦ some e
        | none ↦
            if not (r.lane_id == 0)
            then some (data_lane r.lane_id)
            else if not (r.status == status_ok)
            then some (bad_status r.status)
            else if r.opcode == op_event || r.opcode == op_go_away
            then none
            else some (reserved_request r.opcode)
      ])

  -- A response passes exactly where it answers a request, or is an event or a GOAWAY on lane 0 with status OK.
  pub validate_server_initiated-none :
      (r : Response V)
      → (validate_server_initiated r ≡ none) ↔ (
          (r.request_id ≢ 0)
          ⊎ ((r.lane_id ≡ 0) × (r.status ≡ 0) × ((r.opcode ≡ op_event) ⊎ (r.opcode ≡ op_go_away))))
  unfolding validate_server_initiated connection_level_error
  validate_server_initiated-none r = ground arith
