-- ===== src/Retry/Loop.antt =====
-- `requestOnceOnConnection` as the outcomes that it can have, and the loop around it. A run of the loop
-- is given as the list of its rounds: what the context, the attempt, the wait and the executor answer there.
use ferricstore_go.Base.{
  ℕ, suc, List, [], ◌∷◌, Bool, true, false, ◌&&◌, ◌||◌, not, Option, none, some, Result, ok, err,
  ltb, leb, if◌then◌else◌,
}
use ferricstore_go.Base.Int.{ℤ, pos, negsuc}
use ferricstore_go.Base.Bytes.{Bytes}
use ferricstore_go.Retry.Errors.{
  GoError, transport, native, NativeError, chain_has, is_go_away_error, is_unavailable_error,
  mark_command_not_sent, server_retry_disposition,
}

pub data ReplayPolicy : Type 0 where
  replay_default replay_never : ReplayPolicy

abbrev pub replays : ReplayPolicy → Bool
replays replay_default = true
replays replay_never = false

-- How one attempt ends. `refused` are the errors before a byte is written, `broken` is a write that
-- fails underway, `failed_answer` an error on the response channel.
pub data Attempt (V : Type 0) : Type 0 where
  done_before : GoError → Attempt V
  not_connected : (e : GoError) (reconnectable : Bool) → Attempt V
  no_credit : GoError → Attempt V
  refused : GoError → Attempt V
  broken : ℕ → Attempt V
  failed_answer : GoError → Attempt V
  rejected : NativeError → Attempt V
  gave_up : GoError → Attempt V
  answered : V → Attempt V

-- `requestOnce` and `requestOnceOnConnection`: the value, or the error and whether it is retryable.
unfoldable pub request_once : {V : Type 0} → Attempt V → Result (GoError × Bool) V
request_once (done_before e) = err (mark_command_not_sent e, false)
request_once (not_connected e reconnectable) = err (mark_command_not_sent e, reconnectable)
request_once (no_credit e) = err (mark_command_not_sent e, chain_has is_unavailable_error e)
request_once (refused e) =
    let marked = mark_command_not_sent e in
    err (marked, (chain_has is_go_away_error marked || chain_has is_unavailable_error marked))
request_once (broken n) = err (transport n, chain_has is_unavailable_error (transport n))
request_once (failed_answer e) = err (e, false)
request_once (rejected e) = err (native e, false)
request_once (gave_up e) = err (e, false)
request_once (answered v) = ok v

-- One round: the context at the top, the attempt, the context at the three tests, the wait, and
-- whether the executor is closed.
pub record Round (V : Type 0) : Type 0 where
  pub context : Option GoError
  pub attempt : Attempt V
  pub live_go_away : Bool
  pub live_busy : Bool
  pub live_transport : Bool
  pub wait : Option GoError
  pub closed : Bool

-- `ReconnectMaxRetries` below 0 is 0.
abbrev pub max_retries_of : ℤ → ℕ
max_retries_of (pos n) = n
max_retries_of (negsuc n) = 0

abbrev pub max_server_retries : ℕ
max_server_retries = 1

-- The result, none while the rounds do not suffice, and the attempts behind which another one was made.
abbrev pub Run : Type 0 → Type 0
Run V = Option (Result GoError V) × List (Attempt V)

abbrev pub again : {V : Type 0} → Attempt V → Run V → Run V
again a (result, retried) = (result, a ∷ retried)

-- What a round does with the error of its attempt.
pub data Verdict : Type 0 where
  after_go_away after_busy after_transport : Verdict
  returns : GoError → Verdict

-- The next round, with the counters after each kind of failure, or the end.
abbrev pub follow : {V : Type 0} → Attempt V → Verdict → Run V → Run V → Run V → Run V
follow a after_go_away same_counters busier retried = again a same_counters
follow a after_busy same_counters busier retried = again a busier
follow a after_transport same_counters busier retried = again a retried
follow a (returns why) same_counters busier retried = (some (err why), [])

module _ (equal_fold : Bytes → Bytes → Bool) {V : Type 0} (policy : ReplayPolicy)
    (max_retries : ℕ) where
  unfoldable pub verdict : ℕ → ℕ → Round V → GoError → Bool → Verdict
  verdict transports servers r e retryable =
      let d = server_retry_disposition equal_fold e in
      if replays policy && (chain_has is_go_away_error e && r.live_go_away)
      then after_go_away
      else if replays policy
          && (d.busy && (d.retryable && (ltb servers max_server_retries && r.live_busy)))
      then (elim r.wait [ none ↦ after_busy | some w ↦ returns w ])
      else if not (replays policy)
          || (not retryable || (leb max_retries transports || not r.live_transport))
      then returns e
      else if r.closed
      then returns e
      else after_transport

  unfoldable pub retry_loop : ℕ → ℕ → List (Round V) → Run V
  retry_loop transports servers [] = (none, [])
  retry_loop transports servers (r ∷ rs) = elim r.context [
    | some e ↦ (some (err e), [])
    | none ↦ elim (request_once r.attempt) [
      | ok v ↦ (some (ok v), [])
      | err (e, retryable) ↦
          follow r.attempt (verdict transports servers r e retryable)
            (retry_loop transports servers rs) (retry_loop transports (suc servers) rs)
            (retry_loop (suc transports) servers rs)
    ]
  ]
