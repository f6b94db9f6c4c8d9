-- ===== src/Buffered/Executor.antt =====
-- `BufferedExecutor` of buffered.go. `Do` is two critical sections with the snapshot between them, `prepare` and
-- `admit`; `Flush` is `take_batch` and the pipeline behind it. A counter is kept modulo 2 ^ 64.
use ferricstore_go.Base.{
  ℕ, ◌+◌, ◌*◌, ◌%◌, ◌^◌, Bool, not, List, [], ◌∷◌, ◌++◌, length, Option, none, some, Result, ok,
  err, ltb, leb, ◌==◌, if◌then◌else◌,
}
use ferricstore_go.Buffered.Capacity.{Shapes, retained_size}

pub data BufferedError : Type 0 where
  context_done invalid_command too_many_commands command_too_large : BufferedError
  too_many_bytes snapshot_failed client_required : BufferedError

pub record BufferedStats : Type 0 where
  pub flushes : ℕ
  pub commands_sent : ℕ
  pub max_depth : ℕ

-- `fields` are the deprecated counters beside the atomic ones.
pub record BufferedExecutor : Type 0 where
  pub has_client : Bool
  pub commands : List Shapes
  pub queued_bytes : ℕ
  pub max_commands : ℕ
  pub max_bytes : ℕ
  pub stats : BufferedStats
  pub fields : BufferedStats

abbrev pub no_stats : BufferedStats
no_stats = record { flushes = 0; commands_sent = 0; max_depth = 0 }

abbrev or_default : ℕ → ℕ → ℕ
or_default n d = if n == 0 then d else n

-- `NewBufferedExecutorWithOptions`; an option that is not positive is 0.
abbrev pub new_buffered_executor : Bool → ℕ → ℕ → BufferedExecutor
new_buffered_executor client max_commands max_bytes = record {
  has_client = client;
  commands = [];
  queued_bytes = 0;
  max_commands = or_default max_commands 4096;
  max_bytes = or_default max_bytes (16 * 1024 * 1024);
  stats = no_stats;
  fields = no_stats;
}

abbrev pub snapshot_result : Bool → Option ℕ → Result BufferedError ℕ
snapshot_result copies none = err command_too_large
snapshot_result copies (some size) = if copies then ok size else err snapshot_failed

-- `Do` up to its snapshot: whether the context is live, the command is valid, and the snapshot succeeds.
unfoldable pub prepare :
    (live valid copies : Bool) → BufferedExecutor → Shapes → Result BufferedError ℕ
prepare live valid copies e args =
    if not live
    then err context_done
    else (if not valid
        then err invalid_command
        else (if leb e.max_commands (length e.commands)
            then err too_many_commands
            else snapshot_result copies (retained_size args e.max_bytes)))

abbrev pub with_command : BufferedExecutor → ℕ → Shapes → BufferedExecutor
with_command e size args = record e {
  commands = e.commands ++ (args ∷ []);
  queued_bytes = e.queued_bytes + size;
}

-- `Do` behind its snapshot; `max_bytes - queued_bytes` may be negative in the source, so it is moved over.
unfoldable pub admit : Bool → ℕ → Shapes → BufferedExecutor → Result BufferedError BufferedExecutor
admit live size args e =
    if not live
    then err context_done
    else (if leb e.max_commands (length e.commands)
        then err too_many_commands
        else (if ltb e.max_bytes (size + e.queued_bytes)
            then err too_many_bytes
            else ok (with_command e size args)))

abbrev pub wrap : ℕ → ℕ
wrap n = n % 2 ^ 64

abbrev pub deeper : ℕ → ℕ → ℕ
deeper previous depth = if ltb previous depth then depth else previous

abbrev pub count_flush : ℕ → BufferedStats → BufferedStats
count_flush depth s = record {
  flushes = wrap (s.flushes + 1);
  commands_sent = wrap (s.commands_sent + depth);
  max_depth = deeper s.max_depth depth;
}

abbrev pub without_commands : BufferedExecutor → BufferedExecutor
without_commands e = record e {
  commands = [];
  queued_bytes = 0;
  stats = count_flush (length e.commands) e.stats;
  fields = count_flush (length e.commands) e.fields;
}

-- `Flush` under the lock of the queue: what it leaves, and the commands for the pipeline.
unfoldable pub take_batch :
    Bool → BufferedExecutor → Result BufferedError (BufferedExecutor × List Shapes)
take_batch live e =
    if not live
    then err context_done
    else (if length e.commands == 0
        then ok (e, [])
        else (if not e.has_client
            then err client_required
            else ok (without_commands e, e.commands)))
