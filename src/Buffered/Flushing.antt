-- ===== src/Buffered/Flushing.antt =====
-- Callers of `Do` and `Flush` on one executor, interleaved by critical section.
use ferricstore_go.Base.{
  ℕ, ◌+◌, ◌≤◌, ◌≡◌, Bool, List, [], ◌∷◌, ◌++◌, max, length, Option, none, some, ok, err, All,
}
use ferricstore_go.Buffered.Capacity.{Shapes}
use ferricstore_go.Buffered.Sizes.{snapshot_cost}
use ferricstore_go.Buffered.Executor.{
  BufferedExecutor, BufferedError, prepare, admit, take_batch, new_buffered_executor, wrap,
}

-- `prepared` are the calls of `Do` between their sections, `accepted` the commands that were queued, in order,
-- `in_flight` the batch of the flush that holds the lock, `sent` those whose pipeline has returned.
pub record Buffered : Type 0 where
  pub executor : BufferedExecutor
  pub prepared : List (ℕ × Shapes)
  pub accepted : List Shapes
  pub in_flight : Option (List Shapes)
  pub sent : List (List Shapes)

abbrev pub new_buffered : Bool → ℕ → ℕ → Buffered
new_buffered client max_commands max_bytes = record {
  executor = new_buffered_executor client max_commands max_bytes;
  prepared = [];
  accepted = [];
  in_flight = none;
  sent = [];
}

abbrev pub prepares : Buffered → ℕ → Shapes → Buffered
prepares s size args = record s { prepared = (size, args) ∷ s.prepared }

abbrev pub with_queued : Buffered → BufferedExecutor → List (ℕ × Shapes) → Shapes → Buffered
with_queued s e calls args = record s {
  executor = e;
  prepared = calls;
  accepted = s.accepted ++ (args ∷ []);
}

abbrev pub flushes_with : Buffered → BufferedExecutor → List Shapes → Buffered
flushes_with s e batch = record s { executor = e; in_flight = some batch }

abbrev pub flushed : Buffered → List Shapes → Buffered
flushed s batch = record s { in_flight = none; sent = s.sent ++ (batch ∷ []) }

pub data Step (s : Buffered) : Buffered → Type 0 where
  snapshots :
      (live valid copies : Bool) (args : Shapes) (size : ℕ)
      → prepare live valid copies s.executor args ≡ ok size
      → Step s (prepares s size args)
  enqueues :
      (live : Bool) (size : ℕ) (args : Shapes) (before after : List (ℕ × Shapes))
      → (e : BufferedExecutor) → s.prepared ≡ before ++ ((size, args) ∷ after)
      → admit live size args s.executor ≡ ok e
      → Step s (with_queued s e (before ++ after) args)
  refuses :
      (live : Bool) (size : ℕ) (args : Shapes) (before after : List (ℕ × Shapes))
      → (why : BufferedError) → s.prepared ≡ before ++ ((size, args) ∷ after)
      → admit live size args s.executor ≡ err why
      → Step s (record s { prepared = before ++ after })
  flushes :
      (live : Bool) (e : BufferedExecutor) (first : Shapes) (rest : List Shapes)
      → s.in_flight ≡ none
      → take_batch live s.executor ≡ ok (e, first ∷ rest)
      → Step s (flushes_with s e (first ∷ rest))
  returns : (batch : List Shapes) → s.in_flight ≡ some batch → Step s (flushed s batch)

pub data Reachable (s : Buffered) : Buffered → Type 0 where
  start : Reachable s s
  step : (a b : Buffered) → Reachable s a → Step a b → Reachable s b

-- The batches that a pipeline has been given, in order, and their commands.
abbrev pub under_way : Option (List Shapes) → List (List Shapes)
under_way none = []
under_way (some batch) = batch ∷ []

abbrev pub started : Buffered → List (List Shapes)
started s = s.sent ++ under_way s.in_flight

abbrev pub flatten : List (List Shapes) → List Shapes
flatten [] = []
flatten (batch ∷ batches) = batch ++ flatten batches

abbrev pub total_cost : List Shapes → ℕ
total_cost [] = 0
total_cost (args ∷ commands) = snapshot_cost args + total_cost commands

abbrev pub deepest : List (List Shapes) → ℕ
deepest [] = 0
deepest (batch ∷ batches) = max (length batch) (deepest batches)

-- A list of commands that the limits of an executor allow.
abbrev pub WithinLimits : BufferedExecutor → List Shapes → Type 0
WithinLimits e commands = (length commands ≤ e.max_commands) × (total_cost commands ≤ e.max_bytes)

-- Every queued command is in a batch that was started or still waits, in order; what waits has the recorded
-- size; and the limits allow what waits and every batch that was started.
pub record Sound (s : Buffered) : Type 0 where
  pub in_order : flatten (started s) ++ s.executor.commands ≡ s.accepted
  pub measured : total_cost s.executor.commands ≡ s.executor.queued_bytes
  pub waiting : WithinLimits s.executor s.executor.commands
  pub batches : All (WithinLimits s.executor) (started s)
  pub calls : All (λ c. c.0 ≡ snapshot_cost c.1) s.prepared
  pub sent_total : s.executor.stats.commands_sent ≡ wrap (length (flatten (started s)))
  pub flush_total : s.executor.stats.flushes ≡ wrap (length (started s))
  pub deepest_batch : s.executor.stats.max_depth ≡ deepest (started s)
  pub same_fields : s.executor.fields ≡ s.executor.stats
