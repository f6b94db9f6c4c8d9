-- ===== src/Buffered/Promises.antt =====
-- What `BufferedExecutor` promises its callers under any interleaving of `Do` and `Flush`.
use ferricstore_go.Base.{ℕ, ◌≡◌, refl, sym, ap, ◌∙◌, Bool, ◌∷◌, ◌++◌, All, subst, arith}
use ferricstore_go.Buffered.Sizes.{snapshot_cost}
use ferricstore_go.Buffered.Executor.{without_commands}
use ferricstore_go.Buffered.Flushing.{
  Buffered, new_buffered, with_queued, flushes_with, Step, snapshots, enqueues, refuses, flushes,
  returns, Reachable, start, step, Sound,
}
use ferricstore_go.Buffered.Order.{
  prepare-size, admit-with_command, take_batch-takes, enqueues-Sound, flushes-Sound, returns-Sound,
  All-taken,
}

Step-Sound : (s s' : Buffered) → Sound s → Step s s' → Sound s'
Step-Sound s s' i (snapshots live valid copies args size h) = record {
  in_order = i.in_order;
  measured = i.measured;
  waiting = i.waiting;
  batches = i.batches;
  calls = (prepare-size live valid copies s.executor args h, i.calls);
  sent_total = i.sent_total;
  flush_total = i.flush_total;
  deepest_batch = i.deepest_batch;
  same_fields = i.same_fields;
}
Step-Sound s s' i (enqueues live size args before after e here h) =
    let (same, (few, small)) = admit-with_command live size args s.executor e h in
    subst (λ x. Sound (with_queued s x (before ++ after) args)) (sym same)
      (enqueues-Sound s size args before after i here few small)
Step-Sound s s' i (refuses live size args before after why here h) =
    let (_, others) =
      All-taken (λ c. c.0 ≡ snapshot_cost c.1) before (size, args) after
        (subst (All (λ c. c.0 ≡ snapshot_cost c.1)) here i.calls) in
    record {
      in_order = i.in_order;
      measured = i.measured;
      waiting = i.waiting;
      batches = i.batches;
      calls = others;
      sent_total = i.sent_total;
      flush_total = i.flush_total;
      deepest_batch = i.deepest_batch;
      same_fields = i.same_fields;
    }
Step-Sound s s' i (flushes live e first rest idle h) =
    let (same, batch) = take_batch-takes live s.executor e first rest h in
    subst (λ x. Sound (flushes_with s x (first ∷ rest))) (sym same)
      (subst (λ b. Sound (flushes_with s (without_commands s.executor) b)) batch
        (flushes-Sound s i idle))
Step-Sound s s' i (returns batch there) = returns-Sound s batch i there

new_buffered-Sound :
    (client : Bool) (max_commands max_bytes : ℕ)
    → Sound (new_buffered client max_commands max_bytes)
new_buffered-Sound client max_commands max_bytes = record {
  in_order = refl;
  measured = refl;
  waiting = (omega arith, omega arith);
  batches = tt;
  calls = tt;
  sent_total = refl;
  flush_total = refl;
  deepest_batch = refl;
  same_fields = refl;
}

-- The options of an executor.
abbrev pub limits : Buffered → ℕ × ℕ
limits s = (s.executor.max_commands, s.executor.max_bytes)

Step-limits : (s s' : Buffered) → Step s s' → limits s' ≡ limits s
Step-limits s s' (snapshots live valid copies args size h) = refl
Step-limits s s' (enqueues live size args before after e here h) =
    let (same, _) = admit-with_command live size args s.executor e h in
    ap (λ x. limits (with_queued s x (before ++ after) args)) same
Step-limits s s' (refuses live size args before after why here h) = refl
Step-limits s s' (flushes live e first rest idle h) =
    let (same, _) = take_batch-takes live s.executor e first rest h in
    ap (λ x. limits (flushes_with s x (first ∷ rest))) same
Step-limits s s' (returns batch there) = refl

-- In every state that calls of `Do` and `Flush` on a new executor reach, the commands of the batches that the
-- pipelines were given, one batch after another, and then the commands that wait are the commands that were
-- queued, in their order; the commands that wait have the size on record; they and each batch are
-- within the executor's options, which have not changed; the atomic counters are those of the batches, two of
-- them modulo 2 ^ 64, and the deprecated ones are the same.
pub Reachable-Sound :
    (client : Bool) (max_commands max_bytes : ℕ) (s : Buffered)
    → Reachable (new_buffered client max_commands max_bytes) s
    → Sound s × (limits s ≡ limits (new_buffered client max_commands max_bytes))
Reachable-Sound client max_commands max_bytes s start =
    (new_buffered-Sound client max_commands max_bytes, refl)
Reachable-Sound client max_commands max_bytes s (step a b r next) =
    let (sound, same) = Reachable-Sound client max_commands max_bytes a r in
    (Step-Sound a b sound next, Step-limits a b next ∙ same)
