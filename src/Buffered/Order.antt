-- ===== src/Buffered/Order.antt =====
-- What a section of `Do` or of `Flush` keeps of the state that callers share.
use ferricstore_go.Base.{
  ℕ, ◌+◌, ◌^◌, ◌≤◌, ◌≡◌, refl, ap, sym, ◌∙◌, max, Bool, true, false, not, List, [], ◌∷◌, ◌++◌,
  length, length-append, append_assoc, append-nil, none, some, Result, ok, err, ok_injective, ltb,
  leb, ◌==◌, if◌then◌else◌, Bool-cases, inl, inr, All, arith, subst,
}
use native.Mathlib.Nat.{mod-add-mod}
use ferricstore_go.Buffered.Capacity.{Shapes}
use ferricstore_go.Buffered.Sizes.{snapshot_cost, retained_size-snapshot_cost}
use ferricstore_go.Buffered.Executor.{
  BufferedExecutor, BufferedError, BufferedStats, context_done, too_many_commands, too_many_bytes,
  client_required, prepare, admit, take_batch, with_command, without_commands, deeper, wrap,
  count_flush,
}
use ferricstore_go.Buffered.Flushing.{
  Buffered, with_queued, flushes_with, flushed, started, flatten, total_cost, deepest, WithinLimits,
  Sound,
}

flatten-append : (xs ys : List (List Shapes)) → flatten (xs ++ ys) ≡ flatten xs ++ flatten ys
flatten-append [] ys = refl
flatten-append (x ∷ xs) ys =
    ap (λ t. x ++ t) (flatten-append xs ys) ∙ sym (append_assoc x (flatten xs) (flatten ys))

total_cost-append : (xs ys : List Shapes) → total_cost (xs ++ ys) ≡ total_cost xs + total_cost ys
total_cost-append [] ys = omega arith
total_cost-append (x ∷ xs) ys = omega (arith, total_cost-append xs ys)

deepest-append : (xs ys : List (List Shapes)) → deepest (xs ++ ys) ≡ max (deepest xs) (deepest ys)
deepest-append [] ys = omega arith
deepest-append (x ∷ xs) ys = omega (arith, deepest-append xs ys)

All-append : {A : Type 0} (P : A → Type 0) (xs ys : List A) → All P xs → All P ys → All P (xs ++ ys)
All-append P [] ys _ q = q
All-append P (x ∷ xs) ys (p, ps) q = (p, All-append P xs ys ps q)

-- The element of a list, and the others.
pub All-taken :
    {A : Type 0} (P : A → Type 0) (xs : List A) (x : A) (ys : List A)
    → All P (xs ++ (x ∷ ys))
    → P x × All P (xs ++ ys)
All-taken P [] x ys (p, ps) = (p, ps)
All-taken P (a ∷ xs) x ys (p, ps) =
    let (here, others) = All-taken P xs x ys ps in (here, (p, others))

pub prepare-size :
    (live valid copies : Bool) (e : BufferedExecutor) (args : Shapes) {size : ℕ}
    → prepare live valid copies e args ≡ ok size
    → size ≡ snapshot_cost args
unfolding prepare
prepare-size live valid copies e args h =
    ground (arith, h, retained_size-snapshot_cost args e.max_bytes)

-- A guard that did not return.
passes :
    {A : Type 0} (c : Bool) (why : BufferedError) {r : Result BufferedError A} {a : A}
    → (if c then err why else r) ≡ ok a
    → (c ≡ false) × (r ≡ ok a)
passes true why h = cc
passes false why h = (refl, h)

pub admit-with_command :
    (live : Bool) (size : ℕ) (args : Shapes) (e e' : BufferedExecutor)
    → admit live size args e ≡ ok e'
    → (e' ≡ with_command e size args)
      × ((length e.commands + 1 ≤ e.max_commands) × (size + e.queued_bytes ≤ e.max_bytes))
unfolding admit
admit-with_command live size args e e' h =
    let (_, counted) = passes (not live) context_done h in
    let (few, sized) = passes (leb e.max_commands (length e.commands)) too_many_commands counted in
    let (small, there) = passes (ltb e.max_bytes (size + e.queued_bytes)) too_many_bytes sized in
    (sym (ok_injective there), (ground (arith, few), ground (arith, small)))

pub take_batch-takes :
    (live : Bool) (e e' : BufferedExecutor) (first : Shapes) (rest : List Shapes)
    → take_batch live e ≡ ok (e', first ∷ rest)
    → (e' ≡ without_commands e) × (e.commands ≡ first ∷ rest)
unfolding take_batch
take_batch-takes live e e' first rest h =
    let (_, asked) = passes (not live) context_done h in
    elim (Bool-cases (length e.commands == 0)) [
      | inl empty ↦ absurd (let same : ok (e, []) ≡ ok (e', first ∷ rest) = rw empty at asked in cc)
      | inr full ↦
          let left : (if not e.has_client
                then err client_required
                else ok (without_commands e, e.commands))
              ≡ ok (e', first ∷ rest) =
            rw full at asked in
          let (_, taken) = passes (not e.has_client) client_required left in
          let same = ok_injective taken in (ap (λ p. p.0) (sym same), ap (λ p. p.1) same)
    ]

deeper-max : (a b : ℕ) → deeper a b ≡ max a b
deeper-max a b = ground arith

-- What a batch adds to the counters.
count_flush-counts :
    (batches : List (List Shapes)) (batch : List Shapes) (s : BufferedStats)
    → s.commands_sent ≡ wrap (length (flatten batches))
    → s.flushes ≡ wrap (length batches)
    → s.max_depth ≡ deepest batches
    → (wrap (s.commands_sent + length batch) ≡ wrap (length (flatten (batches ++ (batch ∷ [])))))
      × ((wrap (s.flushes + 1) ≡ wrap (length (batches ++ (batch ∷ []))))
          × (deeper s.max_depth (length batch) ≡ deepest (batches ++ (batch ∷ []))))
count_flush-counts batches batch s sent flushed deep = (
  rw
      (
        sent,
        flatten-append batches (batch ∷ []),
        append-nil batch,
        length-append (flatten batches) batch,
        mod-add-mod (length (flatten batches)) (2 ^ 64) (length batch),
      )
      refl,
  (
    rw (flushed, length-append batches (batch ∷ []), mod-add-mod (length batches) (2 ^ 64) 1) refl,
    rw (deeper-max s.max_depth (length batch), deep, deepest-append batches (batch ∷ []))
        (omega arith),
  ),
)

waits_alone : (s : Buffered) → s.in_flight ≡ none → started s ≡ s.sent
waits_alone s idle = rw (idle, append-nil s.sent) refl

starts :
    (s : Buffered) (batch : List Shapes)
    → s.in_flight ≡ none
    → s.sent ++ (batch ∷ []) ≡ started s ++ (batch ∷ [])
starts s batch idle = rw (waits_alone s idle) refl

pub enqueues-Sound :
    (s : Buffered) (size : ℕ) (args : Shapes) (before after : List (ℕ × Shapes))
    → Sound s
    → s.prepared ≡ before ++ ((size, args) ∷ after)
    → length s.executor.commands + 1 ≤ s.executor.max_commands
    → size + s.executor.queued_bytes ≤ s.executor.max_bytes
    → Sound (with_queued s (with_command s.executor size args) (before ++ after) args)
enqueues-Sound s size args before after i here few small =
    let (exact, others) =
      All-taken (λ c. c.0 ≡ snapshot_cost c.1) before (size, args) after
        (subst (All (λ c. c.0 ≡ snapshot_cost c.1)) here i.calls) in
    let longer = length-append s.executor.commands (args ∷ []) in
    let dearer = total_cost-append s.executor.commands (args ∷ []) in
    record {
      in_order =
          sym (append_assoc (flatten (started s)) s.executor.commands (args ∷ []))
          ∙ ap (λ t. t ++ (args ∷ [])) i.in_order;
      measured = omega (arith, dearer, exact, i.measured);
      waiting = (omega (arith, few, longer), omega (arith, small, dearer, exact, i.measured));
      batches = i.batches;
      calls = others;
      sent_total = i.sent_total;
      flush_total = i.flush_total;
      deepest_batch = i.deepest_batch;
      same_fields = i.same_fields;
    }

pub flushes-Sound :
    (s : Buffered)
    → Sound s
    → s.in_flight ≡ none
    → Sound (flushes_with s (without_commands s.executor) s.executor.commands)
flushes-Sound s i idle =
    let e = s.executor in
    let more = starts s e.commands idle in
    let (sent, (count, deep)) =
      count_flush-counts (started s) e.commands e.stats i.sent_total i.flush_total
        i.deepest_batch in
    record {
      in_order =
          rw (more, flatten-append (started s) (e.commands ∷ []), append-nil e.commands)
            (append-nil _ ∙ i.in_order);
      measured = refl;
      waiting = (omega arith, omega arith);
      batches =
          rw more
            (All-append (WithinLimits e) (started s) (e.commands ∷ []) i.batches (i.waiting, tt));
      calls = i.calls;
      sent_total = rw more sent;
      flush_total = rw more count;
      deepest_batch = rw more deep;
      same_fields = ap (count_flush (length e.commands)) i.same_fields;
    }

pub returns-Sound :
    (s : Buffered) (batch : List Shapes)
    → Sound s
    → s.in_flight ≡ some batch
    → Sound (flushed s batch)
returns-Sound s batch i there =
    let same : started (flushed s batch) ≡ started s =
      rw (there, append-nil (s.sent ++ (batch ∷ []))) refl in
    record {
      in_order = rw same i.in_order;
      measured = i.measured;
      waiting = i.waiting;
      batches = rw same i.batches;
      calls = i.calls;
      sent_total = rw same i.sent_total;
      flush_total = rw same i.flush_total;
      deepest_batch = rw same i.deepest_batch;
      same_fields = i.same_fields;
    }
