-- ===== src/Request/Executor/Removal.antt =====
-- Closing the connection, and taking requests out of the map: native_response.go, native_pending.go
-- and native_reader.go.
use ferricstore_go.Base.{ℕ, false, ◌||◌, List, [], ◌++◌, none, some, if◌then◌else◌}
use ferricstore_go.Base.Dict.{nat_eq, lookup, delete}
use ferricstore_go.Request.Executor.State.{
  RequestError, Effect, Executor, is_conn, release_effects, fail_pending, has_live_pending,
  flow_effects, conn_effects, connection_unavailable,
}

-- `closeConnLocked`
unfoldable pub close_conn_locked : Executor → Executor
close_conn_locked e = record e {
  conn = none;
  flow = none;
  go_away = false;
  heartbeat = false;
  log = e.log ++ (flow_effects e.flow ++ conn_effects e.conn);
}

-- `closeConnAndFailPending`: take what is pending, close, and fail what was taken.
-- The list holds what the method does between the two.
unfoldable pub close_with : Executor → List Effect → RequestError → Executor
close_with e between why =
    let closed = close_conn_locked (record e { pending = [] }) in
    record closed { log = closed.log ++ (between ++ fail_pending e.pending why) }

abbrev pub close_and_fail : Executor → RequestError → Executor
close_and_fail e why = close_with e [] why

-- `closeConnAndFailPendingIfCurrent`
unfoldable pub close_if_current : Executor → ℕ → RequestError → Executor
close_if_current e c why = if is_conn e.conn c then close_and_fail e why else e

-- `closeConnAndFailPendingUnlessRetiring`
unfoldable pub close_unless_retiring : Executor → RequestError → Executor
close_unless_retiring e why = if e.retiring || e.is_closed then e else close_and_fail e why

-- A connection without a live request is closed.
unfoldable pub close_if_idle : Executor → Executor
close_if_idle e = if has_live_pending e.pending then e else close_and_fail e connection_unavailable

unfoldable pub close_if_draining : Executor → Executor
close_if_draining e = if e.go_away then close_if_idle e else e

-- `removePending`: the request is out of the map, and a draining connection without another one closed.
unfoldable pub remove_pending : Executor → ℕ → Executor
remove_pending e id = close_if_draining (record e { pending = delete id e.pending })

-- `releaseNativePending(e.removePending(id))`
unfoldable pub drop_request : Executor → ℕ → Executor
drop_request e id = elim (lookup id e.pending) [
  | none ↦ remove_pending e id
  | some p ↦ record (remove_pending e id) { log = (remove_pending e id).log ++ release_effects p }
]
