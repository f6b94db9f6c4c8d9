-- ===== src/Request/Steps.antt =====
-- Every step moves a caller's request as the abstract machine does.
use ferricstore_go.Request.Executor.{close_and_fail}
use ferricstore_go.Request.Settling.{close_with-Settles}
use ferricstore_go.Request.System.{resets}
use ferricstore_go.Base.{[]}
use ferricstore_go.Base.{
  ℕ, ◌+◌, ◌<◌, ◌≡◌, refl, sym, ap, List, Bool, false, ◌||◌, Option, none, some, Result, ok, err,
  ◌==◌, ==_iff, Bool-cases, Option-cases, inl, inr, arith,
}
use ferricstore_go.Base.Dict.{nat_eq, lookup, insert, lookup-insert_self, weight_at}
use ferricstore_go.Frame.Response.{DecodeMode}
use ferricstore_go.Request.Executor.{
  Executor, Pending, RequestError, net_closed, drop_request, fail_write, cancel, deliver,
  handle_go_away, close_if_current, close_unless_retiring, begin_request, end_request, retire,
  close, install, drains_on_cancellation,
}
use ferricstore_go.Request.Identifiers.{add_pending}
use ferricstore_go.Request.Ledger.{balance}
use ferricstore_go.Request.Settling.{Settles-refl}
use ferricstore_go.Request.Settling.Operations.{
  Settled, drop_request-Settled, close_if_current-Settled, deliver-Settled, handle_go_away-Settled,
}
use ferricstore_go.Request.Settling.Leaving.{
  cancel_pending-Settled, end_request-Settled, retire-Settled, close-Settled,
  close_unless_retiring-Settled, fail_write-Settled,
}
use ferricstore_go.Request.System.{
  System, registered, waiting, returned, answer_ledger, due_answer, request_of, with_executor,
  moves, new_pending, answered, Step, registers, writes, refuses, breaks, cancels, returns,
  delivers, goes_away, fails, heartbeat_fails, begins, ends, retires, closes, installs, Reachable,
  step, new_system,
}
use ferricstore_go.Request.Invariant.{Inv, lookup-insert_other, lookup-insert_same}
use ferricstore_go.Request.Promises.{Reachable-Inv}
use ferricstore_go.Request.Owed.{owed-own}
use ferricstore_go.Request.Refinement.{
  Life, view, stays, opens, phase_of_entry, Answers, phase-Life, executor-Life, returned-Life,
  kept_entry,
}

cancel-Settled :
    (s : System) (t opcode id c : ℕ)
    → Inv s
    → lookup t s.callers ≡ some (waiting id c)
    → Settled s.executor (cancel s.executor opcode id c)
unfolding cancel
cancel-Settled s t opcode id c i mine = elim (Bool-cases (drains_on_cancellation opcode)) [
  | inl drains ↦
      simp (cancel, drains)
        (cancel_pending-Settled s.executor id c i.sound (λ p found. i.conns t id c p mine found))
  | inr drops ↦ simp (cancel, drops) (drop_request-Settled s.executor id i.sound)
]

begin_request-pending : (e e' : Executor) → begin_request e ≡ ok e' → e'.pending ≡ e.pending
unfolding begin_request
begin_request-pending e e' h = elim (Bool-cases (e.is_closed || e.retiring)) [
  | inl out ↦ absurd (let no : err net_closed ≡ ok e' = simp (begin_request, out) at h in cc)
  | inr running ↦
      let now : ok (record e { active_requests = e.active_requests + 1 }) ≡ ok e' =
        simp (begin_request, running) at h in
      ap pending_of (sym now)
]
  where
    pending_of : Result RequestError Executor → List (ℕ × Pending)
    pending_of (ok x) = x.pending
    pending_of (err x) = e.pending

install-pending :
    (e : Executor) (c f : ℕ) (beats : Bool) → (install e c f beats).pending ≡ e.pending
unfolding install
install-pending e c f beats = elim (Bool-cases (e.is_closed || e.retiring)) [
  | inl out ↦ simp (install, out) refl
  | inr running ↦ simp (install, running) refl
]

same_pending :
    (s : System) (e : Executor) (t : ℕ)
    → e.pending ≡ s.executor.pending
    → Life (view s t) (view (with_executor s e) t)
same_pending s e t h = rw h (stays (view s t))

writes-Life :
    (s : System) (t id c u : ℕ)
    → lookup t s.callers ≡ some (registered id c)
    → Life (view s u) (view (moves s s.executor t (waiting id c)) u)
writes-Life s t id c u mine = elim (Bool-cases (t == u)) [
  | inl me ↦
      rw
        (
          lookup-insert_same t u (waiting id c) s.callers me,
          ap (λ x. lookup x s.callers) (sym ((==_iff t u).0 me)),
          mine,
        )
        (stays (phase_of_entry (lookup id s.executor.pending)))
  | inr other ↦ rw (lookup-insert_other t u (waiting id c) s.callers other) (stays (view s u))
]

registers-Life :
    (s : System) (t opcode lane : ℕ) (mode : DecodeMode) (credit : Option ℕ) (c id u : ℕ)
    → Inv s
    → lookup t s.callers ≡ none
    → s.executor.next_id < id
    → Life (view s u) (
        view
          (moves s
            (add_pending s.executor id (new_pending t opcode lane mode credit))
            t
            (registered id c))
          u)
unfolding add_pending
registers-Life s t opcode lane mode credit c id u i absent fresh =
    let entry : Pending = new_pending t opcode lane mode credit in
    elim (Bool-cases (t == u)) [
      | inl me ↦
          rw
            (
              lookup-insert_same t u (registered id c) s.callers me,
              lookup-insert_self id entry s.executor.pending,
              ap (λ x. lookup x s.callers) (sym ((==_iff t u).0 me)),
              absent,
            )
            opens
      | inr other ↦ rw (lookup-insert_other t u (registered id c) s.callers other) (
          phase-Life (lookup u s.callers) s.executor.pending (insert id entry s.executor.pending)
            (λ j mine.
              let apart : (id == j) ≡ false = ground (arith, fresh, i.old_callers u j mine) in
              kept_entry id j entry s.executor.pending apart))
    ]

pub Step-Life : (s s' : System) (t : ℕ) → Inv s → Step s s' → Life (view s t) (view s' t)
Step-Life s s' u i (registers t opcode lane mode credit c id absent found fresh) =
    registers-Life s t opcode lane mode credit c id u i absent fresh
Step-Life s s' u i (writes t id c mine admitted) = writes-Life s t id c u mine
Step-Life s s' u i (refuses t id c mine) =
    returned-Life s (drop_request s.executor id) t id u (ap request_of mine)
      (drop_request-Settled s.executor id i.sound)
Step-Life s s' u i (breaks t id c why mine) =
    returned-Life s (fail_write s.executor id c why) t id u (ap request_of mine)
      (fail_write-Settled s.executor id c why i.sound)
Step-Life s s' u i (cancels t opcode id c mine) =
    returned-Life s (cancel s.executor opcode id c) t id u (ap request_of mine)
      (cancel-Settled s t opcode id c i mine)
Step-Life s s' u i (returns t id c mine got) =
    returned-Life s s.executor t id u (ap request_of mine) (Settles-refl s.executor, i.sound)
Step-Life s s' u i (delivers c frame) =
    executor-Life s (deliver s.executor c frame) u (deliver-Settled s.executor c frame i.sound)
Step-Life s s' u i (goes_away c) =
    executor-Life s (handle_go_away s.executor c) u (handle_go_away-Settled s.executor c i.sound)
Step-Life s s' u i (fails c why) =
    executor-Life s (close_if_current s.executor c why) u
      (close_if_current-Settled s.executor c why i.sound)
Step-Life s s' u i (resets why) =
    executor-Life s (close_and_fail s.executor why) u (close_with-Settles s.executor [] why)
Step-Life s s' u i (heartbeat_fails why) =
    executor-Life s (close_unless_retiring s.executor why) u
      (close_unless_retiring-Settled s.executor why i.sound)
Step-Life s s' u i (begins e h) = same_pending s e u (begin_request-pending s.executor e h)
Step-Life s s' u i ends =
    executor-Life s (end_request s.executor) u (end_request-Settled s.executor i.sound)
Step-Life s s' u i retires =
    executor-Life s (retire s.executor) u (retire-Settled s.executor i.sound)
Step-Life s s' u i closes = executor-Life s (close s.executor) u (close-Settled s.executor i.sound)
Step-Life s s' u i (installs c f beats unconnected) =
    same_pending s (install s.executor c f beats) u (install-pending s.executor c f beats)

entry-Answers :
    (t : ℕ) (n : ℕ) (o : Option Pending)
    → ((p : Pending) → o ≡ some p → p.channel ≡ t)
    → weight_at (due_answer t) o + n ≡ 1
    → Answers (phase_of_entry o) n
entry-Answers t n none owner once = omega (arith, once)
entry-Answers t n (some p) owner once = elim (Bool-cases p.abandoned) [
  | inl gone ↦
      rw gone
        (let nothing : due_answer t p ≡ 0 = ground (arith, gone) in omega (arith, once, nothing))
  | inr live ↦ rw live (
      let one : due_answer t p ≡ 1 = ground (arith, live, owner p refl) in omega (arith, once, one))
]

Inv-Answers : (s : System) (t : ℕ) → Inv s → Answers (view s t) (answered t s.executor)
Inv-Answers s t i = elim (Option-cases (lookup t s.callers)) [
  | inl absent ↦ rw absent (omega (arith, (rw absent at (i.account t))))
  | inr (returned, mine) ↦ rw mine (omega (arith, (rw mine at (i.account t))))
  | inr (registered id c, mine) ↦
      rw mine (active id (ap request_of mine) (rw mine at (i.account t)))
  | inr (waiting id c, mine) ↦ rw mine (active id (ap request_of mine) (rw mine at (i.account t)))
]
  where
    active :
        (id : ℕ)
        → request_of (lookup t s.callers) ≡ some id
        → balance (answer_ledger t) s.executor ≡ 1
        → Answers (phase_of_entry (lookup id s.executor.pending)) (answered t s.executor)
    active id mine once =
        entry-Answers t (answered t s.executor) (lookup id s.executor.pending)
          (λ p found. i.owner t id p mine found) (omega (arith, once, owed-own s t id i mine))

-- Every step from a reachable state moves each caller's request as the abstract machine does, or
-- leaves it, and the answers on its channel are those of its new phase: none while it is
-- unborn or open, exactly one when it is settled, at most one when the caller left.
pub Step-refines :
    (s s' : System) (t : ℕ)
    → Reachable new_system s
    → Step s s'
    → Life (view s t) (view s' t) × Answers (view s' t) (answered t s'.executor)
Step-refines s s' t r x =
    (Step-Life s s' t (Reachable-Inv s r) x, Inv-Answers s' t (Reachable-Inv s' (step s s' r x)))
