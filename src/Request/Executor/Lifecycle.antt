-- ===== src/Request/Executor/Lifecycle.antt =====
-- The life of the executor and of a caller's request: native_request.go, native.go and native_connection.go.
use ferricstore_go.Base.{
  ℕ, ◌+◌, ◌-◌, Bool, true, false, ◌||◌, not, some, Result, ok, err, leb, ◌==◌, if◌then◌else◌,
}
use ferricstore_go.Base.Dict.{nat_eq}
use ferricstore_go.Request.Executor.State.{
  RequestError, Executor, is_conn, connection_unavailable, net_closed, go_away,
}
use ferricstore_go.Request.Executor.Removal.{close_and_fail, close_if_current, drop_request}
use ferricstore_go.Request.Executor.Reader.{cancel_pending_data_request}

-- `markClosedLocked`, without the channels.
unfoldable pub mark_closed : Executor → Executor
mark_closed e = record e { is_closed = true }

unfoldable pub begin_request : Executor → Result RequestError Executor
begin_request e =
    if e.is_closed || e.retiring
    then err net_closed
    else ok (record e { active_requests = e.active_requests + 1 })

unfoldable pub end_request : Executor → Executor
end_request e =
    let e' = record e { active_requests = e.active_requests - 1 } in
    if not (e'.active_requests == 0) || (not e.retiring || e.is_closed)
    then e'
    else close_and_fail (mark_closed e') net_closed

unfoldable pub retire : Executor → Executor
retire e =
    if e.is_closed || e.retiring
    then e
    else (let e' = record e { retiring = true; heartbeat = false } in
        if not (e.active_requests == 0) then e' else close_and_fail (mark_closed e') net_closed)

-- `Close`
unfoldable pub close : Executor → Executor
close e = if e.is_closed then e else close_and_fail (mark_closed e) net_closed

-- The part of `installNativeConnectionLocked` and `runConnectAttempt` that installs a connection; the
-- last argument is whether a heartbeat is configured.
unfoldable pub install : Executor → ℕ → ℕ → Bool → Executor
install e c f beats =
    if e.is_closed || e.retiring
    then e
    else record e { conn = some c; flow = some f; heartbeat = beats || e.heartbeat }

-- What `writeRequest` does under both locks before it writes: the connection it writes to, or the refusal.
unfoldable pub admit_write : Executor → ℕ → Result RequestError ℕ
admit_write e expected =
    if not (is_conn e.conn expected)
    then err connection_unavailable
    else if e.go_away
    then err go_away
    else ok expected

abbrev pub op_command_exec : ℕ
op_command_exec = 0x0100

abbrev pub op_pipeline : ℕ
op_pipeline = 0x000e

abbrev pub op_shards : ℕ
op_shards = 0x0007

-- `nativeOpcodeUsesFlowCredit`
abbrev pub uses_flow_credit : ℕ → Bool
uses_flow_credit opcode = leb op_command_exec opcode || opcode == op_pipeline

-- `nativeOpcodeDrainsOnCancellation`
abbrev pub drains_on_cancellation : ℕ → Bool
drains_on_cancellation opcode = uses_flow_credit opcode || opcode == op_shards

-- The end of `requestOnceOnConnection` for a caller whose context is done.
unfoldable pub cancel : Executor → ℕ → ℕ → ℕ → Executor
cancel e opcode id c =
    if drains_on_cancellation opcode then cancel_pending_data_request e id c else drop_request e id

-- The end of `requestOnceOnConnection` for a failed write on a connection: the request goes, then
-- the connection with all the others.
unfoldable pub fail_write : Executor → ℕ → ℕ → RequestError → Executor
fail_write e id c why = close_if_current (drop_request e id) c why
