-- ===== src/Request/System.antt =====
-- Callers and the reader of one executor, interleaved: a step is one critical section that a caller in
-- `requestOnceOnConnection`, the reader, the heartbeat or the owner of the executor makes.
use ferricstore_go.Base.{
  ℕ, ◌+◌, ◌≤◌, ◌<◌, ◌≡◌, List, [], length, Bool, false, Option, none, some, ok, ◌==◌, if◌then◌else◌,
  refl,
}
use ferricstore_go.Base.Dict.{nat_eq, lookup, insert}
use ferricstore_go.Wire.Value.{Value}
use ferricstore_go.Frame.Response.{Response, DecodeMode}
use ferricstore_go.Request.Executor.{
  Executor, Pending, Effect, answers, RequestError, drop_request, fail_write, cancel, deliver,
  handle_go_away, close_if_current, close_and_fail, close_unless_retiring, begin_request,
  end_request, retire, close, install, admit_write,
}
use ferricstore_go.Request.Identifiers.{next_request_id, add_pending}
use ferricstore_go.Request.Ledger.{Ledger, spent}

-- Where a caller stands: behind `addPendingRequest`, behind the write, or out of the function. The
-- numbers are its request identifier and its connection.
pub data Caller : Type 0 where
  registered waiting : ℕ → ℕ → Caller
  returned : Caller

-- A caller is named by its response channel.
pub record System : Type 0 where
  pub executor : Executor
  pub callers : List (ℕ × Caller)

-- The answers that are sent on a channel, and what a pending request adds to them.
abbrev pub on_channel : ℕ → Effect → ℕ
on_channel t (answers channel a) = if channel == t then 1 else 0
on_channel t _ = 0

abbrev pub due_answer : ℕ → Pending → ℕ
due_answer t p = if p.abandoned then 0 else if p.channel == t then 1 else 0

abbrev pub answer_ledger : ℕ → Ledger
answer_ledger t = record {
  cost = on_channel t;
  due = due_answer t;
  on_release = λ p. 0;
  flow_free = λ f. refl;
  conn_free = λ c. refl;
  drain_free = λ c. refl;
}

abbrev pub answered : ℕ → Executor → ℕ
answered t e = spent (answer_ledger t) e.log

-- The caller takes a credit, where its opcode uses one, before it registers.
abbrev pub new_pending : ℕ → ℕ → ℕ → DecodeMode → Option ℕ → Pending
new_pending t opcode lane mode credit = record {
  channel = t;
  opcode = opcode;
  lane_id = lane;
  decode_mode = mode;
  flow_credit = credit;
  abandoned = false;
}

abbrev pub with_executor : System → Executor → System
with_executor s e = record s { executor = e }

-- The caller goes on, and leaves the executor like this.
abbrev pub moves : System → Executor → ℕ → Caller → System
moves s e t caller = record { executor = e; callers = insert t caller s.callers }

-- The counter of 64 bits has not come round at a registration, and a connection is installed where there is none:
-- there is one attempt to connect at a time, and only without a connection. `resets` is the retry loop.
pub data Step (s : System) : System → Type 0 where
  registers :
      (t opcode lane : ℕ) (mode : DecodeMode) (credit : Option ℕ) (c id : ℕ)
      → lookup t s.callers ≡ none
      → next_request_id (length s.executor.pending + 2) s.executor.pending s.executor.next_id
        ≡ some id
      → s.executor.next_id < id
      → Step s (
          moves s
            (add_pending s.executor id (new_pending t opcode lane mode credit))
            t
            (registered id c))
  writes :
      (t id c : ℕ)
      → lookup t s.callers ≡ some (registered id c)
      → admit_write s.executor c ≡ ok c
      → Step s (moves s s.executor t (waiting id c))
  refuses :
      (t id c : ℕ)
      → lookup t s.callers ≡ some (registered id c)
      → Step s (moves s (drop_request s.executor id) t returned)
  breaks :
      (t id c : ℕ) (why : RequestError)
      → lookup t s.callers ≡ some (registered id c)
      → Step s (moves s (fail_write s.executor id c why) t returned)
  cancels :
      (t opcode id c : ℕ)
      → lookup t s.callers ≡ some (waiting id c)
      → Step s (moves s (cancel s.executor opcode id c) t returned)
  returns :
      (t id c : ℕ)
      → lookup t s.callers ≡ some (waiting id c)
      → 1 ≤ answered t s.executor
      → Step s (moves s s.executor t returned)
  delivers :
      (c : ℕ) (frame : Response Value) → Step s (with_executor s (deliver s.executor c frame))
  goes_away : (c : ℕ) → Step s (with_executor s (handle_go_away s.executor c))
  fails :
      (c : ℕ) (why : RequestError) → Step s (with_executor s (close_if_current s.executor c why))
  resets : (why : RequestError) → Step s (with_executor s (close_and_fail s.executor why))
  heartbeat_fails :
      (why : RequestError) → Step s (with_executor s (close_unless_retiring s.executor why))
  begins : (e : Executor) → begin_request s.executor ≡ ok e → Step s (with_executor s e)
  ends : Step s (with_executor s (end_request s.executor))
  retires : Step s (with_executor s (retire s.executor))
  closes : Step s (with_executor s (close s.executor))
  installs :
      (c f : ℕ) (beats : Bool)
      → s.executor.conn ≡ none
      → Step s (with_executor s (install s.executor c f beats))

pub data Reachable (s : System) : System → Type 0 where
  start : Reachable s s
  step : (a b : System) → Reachable s a → Step a b → Reachable s b

-- `newNativeExecutor`, before its first connection.
abbrev pub new_executor : Executor
new_executor = record {
  conn = none;
  flow = some 0;
  pending = [];
  go_away = false;
  heartbeat = false;
  is_closed = false;
  retiring = false;
  active_requests = 0;
  next_id = 0;
  log = [];
}

abbrev pub new_system : System
new_system = record { executor = new_executor; callers = [] }

-- The request of a caller that is not out yet.
abbrev pub request_of : Option Caller → Option ℕ
request_of (some (registered id c)) = some id
request_of (some (waiting id c)) = some id
request_of _ = none
