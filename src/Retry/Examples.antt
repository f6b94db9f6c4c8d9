-- ===== src/Retry/Examples.antt =====
-- A request that meets GOAWAY, then BUSY, then gets its value.
use ferricstore_go.Base.{
  ℕ, ◌+◌, ◌≤◌, ◌≡◌, refl, List, [], ◌∷◌, length, All, true, false, none, some, Result, ok, arith,
}
use ferricstore_go.Base.Bytes.{codes, bytes_eq}
use ferricstore_go.Wire.Value.{obj, bool, field, end}
use ferricstore_go.Retry.Errors.{
  GoError, go_away, NativeError, native_error_has_kind, disposition_of, native_error_field,
  field_of, chain_has, mark_command_not_sent, server_retry_disposition, native_error_value,
  retry_after,
}
use ferricstore_go.Retry.Loop.{
  Attempt, refused, rejected, answered, Round, replay_default, retry_loop, request_once, verdict,
}
use ferricstore_go.Retry.Replays.{retry_loop-Replayable}
use ferricstore_go.Retry.Safety.{Replayable}
use ferricstore_go.Retry.Ending.{drains, retry_loop-ends}

abbrev busy_error : NativeError
busy_error = record {
  status = 4;
  kind = [];
  value =
      obj (field (codes "retryable") (bool true) (field (codes "safe_to_retry") (bool true) end));
}

abbrev round : Attempt ℕ → Round ℕ
round a = record {
  context = none;
  attempt = a;
  live_go_away = true;
  live_busy = true;
  live_transport = true;
  wait = none;
  closed = false;
}

abbrev rounds : List (Round ℕ)
rounds =
    round (refused go_away)
    ∷ (round (rejected busy_error) ∷ (round (answered 7) ∷ (round (answered 7) ∷ [])))

seven : (retry_loop bytes_eq replay_default 0 0 0 rounds).0 ≡ some (ok 7)
unfolding retry_loop request_once chain_has mark_command_not_sent verdict server_retry_disposition
    native_error_value disposition_of native_error_has_kind native_error_field field_of bytes_eq
    retry_after
seven = refl

retry_loop-Replayable_example :
    All (λ a. Replayable bytes_eq a) (retry_loop bytes_eq replay_default 0 0 0 rounds).1
retry_loop-Replayable_example =
    retry_loop-Replayable bytes_eq replay_default 0 0 0 rounds (tt, (tt, (tt, (tt, tt))))

few_drains : drains rounds ≡ 1
unfolding request_once chain_has mark_command_not_sent
few_drains = refl

retry_loop-ends_example :
    ((x : Result GoError ℕ) × ((retry_loop bytes_eq replay_default 0 0 0 rounds).0 ≡ some x))
    × (length (retry_loop bytes_eq replay_default 0 0 0 rounds).1 ≤ drains rounds + 1 + 0)
retry_loop-ends_example =
    retry_loop-ends bytes_eq replay_default 0 rounds (omega (arith, few_drains))
