-- ===== src/Flow/Close.antt =====
-- The end of the flow controller: `close` fails every waiter once.
use ferricstore_go.Base.{
  ℕ, zero, suc, ◌+◌, ◌≤◌, ◌≡◌, refl, ap, ◌∙◌, Bool-cases, true, false, List, [], ◌∷◌, Option, none,
  some, Option-cases, inl, inr, ◌==◌, ==_iff, if◌then◌else◌, arith,
}
use ferricstore_go.Base.Dict.{nat_eq, lookup, insert, lookup-insert, weight_at, weight_at-le, total}
use ferricstore_go.Flow.Controller.{
  FlowError, Outcome, failed, LaneQueue, Controller, fail_waiters, fail_queues, close,
}
use ferricstore_go.Flow.Invariant.{Inv, same, count, one}
use ferricstore_go.Flow.Ending.{waits_on}

-- What becomes of a waiter's outcome when it is met `n` times.
abbrev outcome_after : FlowError → Option Outcome → ℕ → Option Outcome
outcome_after e (some o) n = some o
outcome_after e none zero = none
outcome_after e none (suc n) = some (failed e)

outcome_after-zero : (e : FlowError) (o : Option Outcome) → o ≡ outcome_after e o 0
outcome_after-zero e none = refl
outcome_after-zero e (some o) = refl

outcome_after-twice :
    (e : FlowError) (o : Option Outcome) (m n : ℕ)
    → outcome_after e (outcome_after e o m) n ≡ outcome_after e o (m + n)
outcome_after-twice e (some o) m n = refl
outcome_after-twice e none zero n = ap (outcome_after e none) (omega arith)
outcome_after-twice e none (suc m) n = ground arith

fail_one :
    (e : FlowError) (v w : ℕ) (settled : List (ℕ × Outcome))
    → lookup w (elim (lookup v settled) [ some o ↦ settled | none ↦ insert v (failed e) settled ])
      ≡ outcome_after e (lookup w settled) (same w v)
fail_one e v w settled = elim (Bool-cases (v == w)) [
  | inl at_w ↦
      let back : (w == v) ≡ true = ground (arith, at_w) in
      let moved : lookup v settled ≡ lookup w settled =
        ap (λ k. lookup k settled) ((==_iff v w).0 at_w) in
      (elim (Option-cases (lookup w settled)) [
        | inl free ↦ rw (moved, free, back, lookup-insert v w (failed e) settled, at_w) refl
        | inr (o, taken) ↦ rw (moved, taken, taken) refl
      ])
  | inr other ↦
      let away : (w == v) ≡ false = ground (arith, other) in
      (elim (Option-cases (lookup v settled)) [
        | inl free ↦
            rw (free, away, lookup-insert v w (failed e) settled, other)
              (outcome_after-zero e (lookup w settled))
        | inr (o, taken) ↦ rw (taken, away) (outcome_after-zero e (lookup w settled))
      ])
]

lookup-fail_waiters :
    (e : FlowError) (ws : List ℕ) (w : ℕ) (settled : List (ℕ × Outcome))
    → lookup w (fail_waiters e ws settled) ≡ outcome_after e (lookup w settled) (count w ws)
lookup-fail_waiters e [] w settled = outcome_after-zero e (lookup w settled)
lookup-fail_waiters e (v ∷ ws) w settled =
    lookup-fail_waiters e ws w
      (elim (lookup v settled) [ some o ↦ settled | none ↦ insert v (failed e) settled ])
    ∙ ap (λ o. outcome_after e o (count w ws)) (fail_one e v w settled)
    ∙ outcome_after-twice e (lookup w settled) (same w v) (count w ws)

lookup-fail_queues :
    (e : FlowError) (qs : List (ℕ × LaneQueue)) (w : ℕ) (settled : List (ℕ × Outcome))
    → lookup w (fail_queues e qs settled)
      ≡ outcome_after e (lookup w settled) (total (λ (q : LaneQueue). count w q.waiters) qs)
lookup-fail_queues e [] w settled = outcome_after-zero e (lookup w settled)
lookup-fail_queues e ((lane, q) ∷ qs) w settled =
    lookup-fail_queues e qs w (fail_waiters e q.waiters settled)
    ∙ ap (λ o. outcome_after e o (total (λ (q : LaneQueue). count w q.waiters) qs))
        (lookup-fail_waiters e q.waiters w settled)
    ∙ outcome_after-twice e (lookup w settled) (count w q.waiters)
        (total (λ (q : LaneQueue). count w q.waiters) qs)

outcome_after-new :
    (e : FlowError) (o : Option Outcome) (n : ℕ)
    → weight_at one o + n ≤ 1
    → 1 ≤ n
    → outcome_after e o n ≡ some (failed e)
outcome_after-new e (some o) n once queued = absurd (omega arith)
outcome_after-new e none zero once queued = absurd (omega arith)
outcome_after-new e none (suc n) once queued = refl

outcome_after-once :
    (e : FlowError) (o : Option Outcome) (n : ℕ) → weight_at one (outcome_after e o n) ≤ 1
outcome_after-once e (some o) n = omega arith
outcome_after-once e none zero = omega arith
outcome_after-once e none (suc n) = omega arith

outcome_after-fresh :
    (e : FlowError) (o : Option Outcome) (n : ℕ)
    → n + weight_at one o ≡ 0
    → weight_at one (outcome_after e o n) ≡ 0
outcome_after-fresh e (some o) n fresh = omega arith
outcome_after-fresh e none zero fresh = refl
outcome_after-fresh e none (suc n) fresh = absurd (omega arith)

outcome_after-queued :
    (e : FlowError) (o : Option Outcome) (n : ℕ)
    → weight_at one o + n ≤ 1
    → outcome_after e o n ≡ (if n == 0 then o else some (failed e))
outcome_after-queued e (some o) n once = ground (arith, once)
outcome_after-queued e none zero once = refl
outcome_after-queued e none (suc n) once = ground arith

-- How often a waiter stands in the queues of all lanes.
abbrev pub standing : Controller → ℕ → ℕ
standing c w = total (λ (q : LaneQueue). count w q.waiters) c.queues

-- Closing an open, well-formed controller records the error and leaves no queue, no lane in the ready list and no queued
-- request, while the requests that have a credit keep it. The controller stays well-formed. Exactly the waiters
-- that stood in a queue are settled anew, as failed with the given error.
pub close-fails :
    (c : Controller) (e : FlowError)
    → Inv c
    → c.closed ≡ none
    → let c' = close c e in
      Inv c'
      × (c'.closed ≡ some e)
      × (c'.queues ≡ [])
      × (c'.ready ≡ [])
      × (c'.queued_total ≡ 0)
      × (c'.active_total ≡ c.active_total)
      × (c'.active_by_lane ≡ c.active_by_lane)
      × ((w : ℕ)
          → lookup w c'.settled
            ≡ (if standing c w == 0 then lookup w c.settled else some (failed e)))
      × ((lane w : ℕ) → 1 ≤ waits_on c lane w → lookup w c'.settled ≡ some (failed e))
unfolding close lookup
close-fails c e h live =
    simp (close, live)
      (
        closed-Inv,
        refl,
        refl,
        refl,
        refl,
        refl,
        refl,
        (λ w.
            lookup-fail_queues e c.queues w c.settled
            ∙ outcome_after-queued e (lookup w c.settled) (queued w) (omega (arith, h.once w))),
        fails,
      )
  where
    queued : ℕ → ℕ
    queued w = total (λ (q : LaneQueue). count w q.waiters) c.queues

    ended : Controller
    ended = record c {
      queues = [];
      ready = [];
      queued_total = 0;
      closed = some e;
      settled = fail_queues e c.queues c.settled;
    }

    closed-Inv : Inv ended
    closed-Inv = record {
      unique_active = h.unique_active;
      unique_queues = tt;
      active = h.active;
      queued = refl;
      counted = tt;
      once = λ w.
          rw (lookup-fail_queues e c.queues w c.settled)
            (omega (arith, outcome_after-once e (lookup w c.settled) (queued w)));
      fresh = λ w le.
          rw (lookup-fail_queues e c.queues w c.settled)
            (omega (arith, outcome_after-fresh e (lookup w c.settled) (queued w) (h.fresh w le)));
      listed = λ l. refl;
    }

    fails :
        (lane w : ℕ)
        → 1 ≤ waits_on c lane w
        → lookup w (fail_queues e c.queues c.settled) ≡ some (failed e)
    fails lane w there =
        lookup-fail_queues e c.queues w c.settled
        ∙ outcome_after-new e (lookup w c.settled) (queued w) (omega (arith, h.once w)) (
            omega (arith, there, weight_at-le (λ (q : LaneQueue). count w q.waiters) lane c.queues))
