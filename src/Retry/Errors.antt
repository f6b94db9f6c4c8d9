-- ===== src/Retry/Errors.antt =====
-- Errors as chains that `errors.Is` and `errors.As` walk, and what a server's error permits, native_retry.go.
-- `strings.EqualFold` is the argument `equal_fold`.
use ferricstore_go.Base.{
  ℕ, ◌*◌, ◌/◌, ◌≤◌, Bool, true, false, ◌&&◌, ◌||◌, Option, none, some, ltb, leb, ◌==◌,
  if◌then◌else◌, arith,
}
use ferricstore_go.Base.Int.{ℤ, pos, negsuc}
use ferricstore_go.Base.Bytes.{Bytes, codes, bytes_eq}
use ferricstore_go.Wire.Value.{Value, bool, int, uint, bytes, obj, Fields, end, field}

pub record NativeError : Type 0 where
  pub status : ℕ
  pub kind : Bytes
  pub value : Value

-- `not_sent` is `commandNotSentError`, and `joined` two errors behind two `%w`.
pub data GoError : Type 0 where
  go_away connection_unavailable net_closed cancelled deadline_exceeded : GoError
  transport : ℕ → GoError
  native : NativeError → GoError
  not_sent : GoError → GoError
  joined : GoError → GoError → GoError

-- `errors.Is`, for the errors that the test accepts.
unfoldable pub chain_has : (GoError → Bool) → GoError → Bool
chain_has test (not_sent e) = test (not_sent e) || chain_has test e
chain_has test (joined a b) = test (joined a b) || (chain_has test a || chain_has test b)
chain_has test e = test e

abbrev pub is_go_away_error : GoError → Bool
is_go_away_error go_away = true
is_go_away_error _ = false

abbrev pub is_unavailable_error : GoError → Bool
is_unavailable_error connection_unavailable = true
is_unavailable_error _ = false

abbrev pub is_not_sent_error : GoError → Bool
is_not_sent_error (not_sent e) = true
is_not_sent_error _ = false

-- `markCommandNotSent`
unfoldable pub mark_command_not_sent : GoError → GoError
mark_command_not_sent e = if chain_has is_not_sent_error e then e else not_sent e

abbrev pub or_else_native : Option NativeError → Option NativeError → Option NativeError
or_else_native (some a) b = some a
or_else_native none b = b

-- `nativeErrorValue`: the first of the chain.
unfoldable pub native_error_value : GoError → Option NativeError
native_error_value (native e) = some e
native_error_value (not_sent e) = native_error_value e
native_error_value (joined a b) = or_else_native (native_error_value a) (native_error_value b)
native_error_value _ = none

unfoldable pub field_of : Bytes → Fields → Option Value
field_of name end = none
field_of name (field k v fs) =
    let rest = field_of name fs in if bytes_eq k name then some v else rest

-- `nativeErrorField`; a key that is missing reads as nil.
unfoldable pub native_error_field : Value → Bytes → Option Value
native_error_field (obj fs) name = field_of name fs
native_error_field _ name = none

abbrev pub status_busy : ℕ
status_busy = 4

abbrev pub status_reroute : ℕ
status_reroute = 5

abbrev pub max_int64 : ℕ
max_int64 = 0x7fffffffffffffff

-- `nativeRetryAfterMilliseconds`
abbrev pub retry_after_milliseconds : Option Value → Option ℤ
retry_after_milliseconds (some (int n)) = some n
retry_after_milliseconds (some (uint n)) = if leb n max_int64 then some (pos n) else none
retry_after_milliseconds _ = none

-- `nativeRetryAfter`, in nanoseconds.
unfoldable pub retry_after : Option Value → ℕ
retry_after v = elim (retry_after_milliseconds v) [
  | none ↦ 0
  | some (negsuc n) ↦ 0
  | some (pos n) ↦ if ltb (max_int64 / 1000000) n then max_int64 else n * 1000000
]

abbrev pub flag_set : Option Value → Bool
flag_set (some (bool b)) = b
flag_set _ = false

-- `nativeRetryDisposition`
pub record Disposition : Type 0 where
  pub busy : Bool
  pub reroute : Bool
  pub retryable : Bool
  pub retry_after_ns : ℕ

abbrev pub no_disposition : Disposition
no_disposition = record { busy = false; reroute = false; retryable = false; retry_after_ns = 0 }

module _ (equal_fold : Bytes → Bytes → Bool) where
  abbrev pub code_is : Bytes → Option Value → Bool
  code_is kind (some (bytes b)) = equal_fold b kind
  code_is kind _ = false

  -- `nativeErrorHasKind`
  unfoldable pub native_error_has_kind : NativeError → ℕ → Bytes → Bool
  native_error_has_kind e status kind =
      (e.status == status || equal_fold e.kind kind)
      || code_is kind (native_error_field e.value (codes "code"))

  -- Both flags are there and true.
  abbrev pub safe_to_retry : NativeError → Bool
  safe_to_retry e =
      flag_set (native_error_field e.value (codes "retryable"))
      && flag_set (native_error_field e.value (codes "safe_to_retry"))

  -- `nativeServerRetryDisposition`
  unfoldable pub disposition_of : NativeError → Disposition
  disposition_of e =
      let busy = native_error_has_kind e status_busy (codes "busy") in
      let reroute = native_error_has_kind e status_reroute (codes "reroute") in
      if busy || reroute
      then record {
        busy = busy;
        reroute = reroute;
        retryable = safe_to_retry e;
        retry_after_ns = retry_after (native_error_field e.value (codes "retry_after_ms"));
      }
      else no_disposition

  unfoldable pub server_retry_disposition : GoError → Disposition
  server_retry_disposition e = elim (native_error_value e) [
    | none ↦ no_disposition
    | some n ↦ disposition_of n
  ]

-- The delay of a retry is a Go duration.
pub retry_after-le : (v : Option Value) → retry_after v ≤ max_int64
unfolding retry_after
retry_after-le v =
    elim (retry_after_milliseconds v)
      as (λ o.
        elim o [
          | none ↦ 0
          | some (negsuc n) ↦ 0
          | some (pos n) ↦ if ltb (max_int64 / 1000000) n then max_int64 else n * 1000000
        ]
        ≤ max_int64) [
          | none ↦ omega arith
          | some (negsuc n) ↦ omega arith
          | some (pos n) ↦ ground arith
        ]
