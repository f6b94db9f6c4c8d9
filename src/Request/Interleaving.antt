-- ===== src/Request/Interleaving.antt =====
-- Every interleaving of callers, the reader, the heartbeat and the owner: no caller waits for an
-- answer that cannot come, and none is answered twice.
use ferricstore_go.Base.{[]}
use ferricstore_go.Request.Executor.{close_and_fail}
use ferricstore_go.Request.Ledger.{close_and_fail-balance}
use ferricstore_go.Request.Settling.{close_with-Settles}
use ferricstore_go.Request.System.{resets}
use ferricstore_go.Base.{
  ℕ, ◌+◌, ◌≤◌, ◌≡◌, refl, sym, ap, subst, ◌∙◌, Bool, ◌||◌, none, some, Result, ok, err, Bool-cases,
  inl, inr, arith,
}
use ferricstore_go.Base.Dict.{nat_eq, lookup, weight_at-le}
use ferricstore_go.Request.Executor.{
  Executor, RequestError, net_closed, connection_unavailable, is_conn, drop_request, fail_write,
  deliver, handle_go_away, close_if_current, close_unless_retiring, begin_request, end_request,
  retire, close, install, admit_write,
}
use ferricstore_go.Request.Ledger.{
  balance, close_if_current-balance, deliver-balance, handle_go_away-balance,
}
use ferricstore_go.Request.Settling.{Settles-refl}
use ferricstore_go.Request.Settling.Operations.{
  drop_request-Settled, close_if_current-Settled, deliver-Settled, handle_go_away-Settled,
  is_conn-some,
}
use ferricstore_go.Request.Settling.Leaving.{
  drop_request-Forgets, end_request-Settled, retire-Settled, close-Settled,
  close_unless_retiring-Settled, fail_write-Settled, fail_write-Forgets,
}
use ferricstore_go.Request.System.{
  System, waiting, returned, answer_ledger, due_answer, request_of, with_executor, moves, answered,
  Step, registers, writes, refuses, breaks, cancels, returns, delivers, goes_away, fails,
  heartbeat_fails, begins, ends, retires, closes, installs,
}
use ferricstore_go.Request.Invariant.{
  Inv, answer_ledger-IsFair, with_executor-Inv, returned-Inv, writes-Inv,
}
use ferricstore_go.Request.Registering.{registers-Inv}
use ferricstore_go.Request.Leaving.{left-Inv, drop_request-Leaves, fail_write-Leaves, cancels-Inv}
use ferricstore_go.Request.Closing.{
  end_request-balance, retire-balance, close-balance, close_unless_retiring-balance,
}

-- A caller that was answered has nothing pending.
returns-Inv :
    (s : System) (t id c : ℕ)
    → Inv s
    → lookup t s.callers ≡ some (waiting id c)
    → 1 ≤ answered t s.executor
    → Inv (moves s s.executor t returned)
returns-Inv s t id c i mine got =
    returned-Inv s s.executor t id i (ap request_of mine) (Settles-refl s.executor, i.sound)
      (λ q found. elim (Bool-cases q.abandoned) [
        | inl gone ↦ gone
        | inr live ↦
            let due : due_answer t q ≡ 1 =
              ground (arith, live, i.owner t id q (ap request_of mine) found) in
            absurd (
              omega (
                arith,
                once,
                got,
                due,
                (rw found at (weight_at-le (due_answer t) id s.executor.pending)),
              ))
      ])
      (omega (arith, once)) (λ u other. refl)
  where
    once : balance (answer_ledger t) s.executor ≡ 1
    once = (rw mine at (i.account t))

begins-Inv :
    (s : System) (e : Executor) → Inv s → begin_request s.executor ≡ ok e → Inv (with_executor s e)
unfolding begin_request
begins-Inv s e i h = elim (Bool-cases (s.executor.is_closed || s.executor.retiring)) [
  | inl out ↦ absurd (let no : err net_closed ≡ ok e = simp (begin_request, out) at h in cc)
  | inr running ↦
      let now : record (s.executor) { active_requests = s.executor.active_requests + 1 } ≡ e =
        ok_values (simp (begin_request, running) at h) in
      subst (λ x. Inv (with_executor s x)) now
        (record {
          sound = record {
            unique = i.sound.unique;
            draining_conn = i.sound.draining_conn;
            draining_live = i.sound.draining_live;
          };
          account = i.account;
          owner = i.owner;
          active = i.active;
          conns = i.conns;
          old_pending = i.old_pending;
          old_callers = i.old_callers;
        })
]
  where
    ok_values : {a b : Executor} → ◌≡◌ {A = Result RequestError Executor} (ok a) (ok b) → a ≡ b
    ok_values k = cc

-- Nothing waits for a connection that is not there.
installs-Inv :
    (s : System) (c f : ℕ) (beats : Bool)
    → Inv s
    → s.executor.conn ≡ none
    → Inv (with_executor s (install s.executor c f beats))
unfolding install
installs-Inv s c f beats i unconnected =
    elim (Bool-cases (s.executor.is_closed || s.executor.retiring)) [
      | inl out ↦ simp (install, out) i
      | inr running ↦
          simp (install, running)
            (record {
              sound = record {
                unique = i.sound.unique;
                draining_conn = λ h. (c, refl);
                draining_live = i.sound.draining_live;
              };
              account = i.account;
              owner = i.owner;
              active = i.active;
              conns = λ t id d p waits found.
                  absurd
                    (let no : none ≡ some d = sym unconnected ∙ i.conns t id d p waits found in cc);
              old_pending = i.old_pending;
              old_callers = i.old_callers;
            })
    ]

pub admit_write-conn : (e : Executor) (c d : ℕ) → admit_write e c ≡ ok d → e.conn ≡ some c
unfolding admit_write
admit_write-conn e c d h = elim (Bool-cases (is_conn e.conn c)) [
  | inl same ↦ is_conn-some e.conn c same
  | inr other ↦
      absurd (let no : err connection_unavailable ≡ ok d = simp (admit_write, other) at h in cc)
]

pub Step-Inv : (s s' : System) → Inv s → Step s s' → Inv s'
Step-Inv s s' i (registers t opcode lane mode credit c id absent found fresh) =
    registers-Inv s t opcode lane mode credit c id i absent fresh
Step-Inv s s' i (writes t id c mine admitted) =
    writes-Inv s t id c i mine (admit_write-conn s.executor c c admitted)
Step-Inv s s' i (refuses t id c mine) =
    left-Inv s (drop_request s.executor id) t id i (ap request_of mine)
      (drop_request-Settled s.executor id i.sound) (drop_request-Forgets s.executor id i.sound)
      (drop_request-Leaves s.executor id i.sound)
Step-Inv s s' i (breaks t id c why mine) =
    left-Inv s (fail_write s.executor id c why) t id i (ap request_of mine)
      (fail_write-Settled s.executor id c why i.sound)
      (fail_write-Forgets s.executor id c why i.sound)
      (fail_write-Leaves s.executor id c why i.sound)
Step-Inv s s' i (cancels t opcode id c mine) = cancels-Inv s t opcode id c i mine
Step-Inv s s' i (returns t id c mine got) = returns-Inv s t id c i mine got
Step-Inv s s' i (delivers c frame) =
    with_executor-Inv s (deliver s.executor c frame) i (deliver-Settled s.executor c frame i.sound)
      (λ t.
        deliver-balance (answer_ledger t) (answer_ledger-IsFair t) s.executor c frame
          i.sound.unique)
Step-Inv s s' i (goes_away c) =
    with_executor-Inv s (handle_go_away s.executor c) i
      (handle_go_away-Settled s.executor c i.sound)
      (λ t. handle_go_away-balance (answer_ledger t) (answer_ledger-IsFair t) s.executor c)
Step-Inv s s' i (fails c why) =
    with_executor-Inv s (close_if_current s.executor c why) i
      (close_if_current-Settled s.executor c why i.sound)
      (λ t. close_if_current-balance (answer_ledger t) (answer_ledger-IsFair t) s.executor c why)
Step-Inv s s' i (resets why) =
    with_executor-Inv s (close_and_fail s.executor why) i (close_with-Settles s.executor [] why)
      (λ t. close_and_fail-balance (answer_ledger t) (answer_ledger-IsFair t) s.executor why)
Step-Inv s s' i (heartbeat_fails why) =
    with_executor-Inv s (close_unless_retiring s.executor why) i
      (close_unless_retiring-Settled s.executor why i.sound)
      (λ t. close_unless_retiring-balance (answer_ledger t) (answer_ledger-IsFair t) s.executor why)
Step-Inv s s' i (begins e h) = begins-Inv s e i h
Step-Inv s s' i ends =
    with_executor-Inv s (end_request s.executor) i (end_request-Settled s.executor i.sound)
      (λ t. end_request-balance (answer_ledger t) (answer_ledger-IsFair t) s.executor)
Step-Inv s s' i retires =
    with_executor-Inv s (retire s.executor) i (retire-Settled s.executor i.sound)
      (λ t. retire-balance (answer_ledger t) (answer_ledger-IsFair t) s.executor)
Step-Inv s s' i closes =
    with_executor-Inv s (close s.executor) i (close-Settled s.executor i.sound)
      (λ t. close-balance (answer_ledger t) (answer_ledger-IsFair t) s.executor)
Step-Inv s s' i (installs c f beats unconnected) = installs-Inv s c f beats i unconnected
