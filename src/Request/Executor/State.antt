-- ===== src/Request/Executor/State.antt =====
-- The pending requests of `NativeExecutor`, the state around them, and what is done to channels, flow
-- controllers and connections: native.go and native_pending.go.
use ferricstore_go.Base.{
  ℕ, Bool, false, ◌||◌, not, List, [], ◌∷◌, ◌++◌, Option, none, some, ◌==◌, if◌then◌else◌,
}
use ferricstore_go.Base.Dict.{nat_eq}
use ferricstore_go.Wire.Value.{Value}
use ferricstore_go.Frame.Response.{DecodeMode, Response}

pub data RequestError : Type 0 where
  connection_unavailable net_closed go_away go_away_drain_timeout : RequestError
  unknown_request : ℕ → RequestError
  mismatch : ℕ → ℕ → ℕ → RequestError
  transport : ℕ → RequestError

-- What is sent on a response channel.
pub data Answer : Type 0 where
  response : Response Value → Answer
  failure : RequestError → Answer

pub data Effect : Type 0 where
  answers : ℕ → Answer → Effect
  releases : ℕ → ℕ → Effect
  closes_flow closes_conn schedules_drain : ℕ → Effect

-- `nativePendingRequest`
pub record Pending : Type 0 where
  pub channel : ℕ
  pub opcode : ℕ
  pub lane_id : ℕ
  pub decode_mode : DecodeMode
  pub flow_credit : Option ℕ
  pub abandoned : Bool

-- The fields of `NativeExecutor` that requests in flight use. `go_away_done`, `connection_done` and
-- `closed` are closed with the connection or the executor, so they have no field of their own.
pub record Executor : Type 0 where
  pub conn : Option ℕ
  pub flow : Option ℕ
  pub pending : List (ℕ × Pending)
  pub go_away : Bool
  pub heartbeat : Bool
  pub is_closed : Bool
  pub retiring : Bool
  pub active_requests : ℕ
  pub next_id : ℕ
  pub log : List Effect

-- `e.conn == conn` for a connection that is there.
abbrev pub is_conn : Option ℕ → ℕ → Bool
is_conn none c = false
is_conn (some d) c = d == c

-- `releaseNativePending`
abbrev pub credit_effects : Option ℕ → ℕ → List Effect
credit_effects none lane = []
credit_effects (some f) lane = releases f lane ∷ []

abbrev pub release_effects : Pending → List Effect
release_effects p = credit_effects p.flow_credit p.lane_id

-- The send that a request gets unless its caller gave it up.
abbrev pub answer_effects : Pending → Answer → List Effect
answer_effects p a = if p.abandoned then [] else answers p.channel a ∷ []

-- `failNativePending`; the order of a Go map's entries is any, here the list's.
unfoldable pub fail_pending : List (ℕ × Pending) → RequestError → List Effect
fail_pending [] e = []
fail_pending ((id, p) ∷ m) e =
    release_effects p ++ (answer_effects p (failure e) ++ fail_pending m e)

unfoldable pub has_live_pending : List (ℕ × Pending) → Bool
has_live_pending [] = false
has_live_pending ((id, p) ∷ m) = not p.abandoned || has_live_pending m

abbrev pub flow_effects : Option ℕ → List Effect
flow_effects none = []
flow_effects (some f) = closes_flow f ∷ []

abbrev pub conn_effects : Option ℕ → List Effect
conn_effects none = []
conn_effects (some c) = closes_conn c ∷ []
