-- ===== src/Request/Leaving.antt =====
-- Callers that leave: what they take out of the map is theirs alone.
use ferricstore_go.Base.{
  ℕ, ◌+◌, ◌≡◌, refl, ap, Option, none, some, Bool-cases, Option-cases, inl, inr, arith,
}
use ferricstore_go.Base.Dict.{nat_eq, lookup, weight_at}
use ferricstore_go.Request.Executor.{
  Executor, Pending, RequestError, drop_request, fail_write, cancel, drains_on_cancellation,
  cancel_pending_data_request,
}
use ferricstore_go.Request.Ledger.{
  balance, drop_request-balance, close_if_current-balance, cancel_pending-balance,
}
use ferricstore_go.Request.Settling.{IsSound}
use ferricstore_go.Request.Settling.Operations.{Settled, drop_request-Settled}
use ferricstore_go.Request.Settling.Leaving.{
  Forgets, drop_request-Forgets, cancel_pending-Settled, cancel_pending-Forgets,
}
use ferricstore_go.Request.System.{
  System, Caller, registered, waiting, returned, answer_ledger, due_answer, request_of, moves,
}
use ferricstore_go.Request.Invariant.{Inv, Account, answer_ledger-IsFair, returned-Inv}

-- What a step takes out of the map is answered, but for the request that its own caller gave up.
pub Leaves : Executor → Executor → ℕ → Type 0
Leaves e e' id =
    (u : ℕ)
    → balance (answer_ledger u) e' + weight_at (due_answer u) (lookup id e.pending)
      ≡ balance (answer_ledger u) e

pub Account-one :
    (n : ℕ) (o : Option Caller) (id : ℕ) → request_of o ≡ some id → Account n o → n ≡ 1
Account-one n none id h a = absurd cc
Account-one n (some (registered j c)) id h a = a
Account-one n (some (waiting j c)) id h a = a
Account-one n (some returned) id h a = absurd cc

pub left-Inv :
    (s : System) (e : Executor) (t id : ℕ)
    → Inv s
    → request_of (lookup t s.callers) ≡ some id
    → Settled s.executor e
    → Forgets e id
    → Leaves s.executor e id
    → Inv (moves s e t returned)
unfolding Leaves
left-Inv s e t id i mine k forgets leaves =
    returned-Inv s e t id i mine k forgets
      (omega (
        arith,
        leaves t,
        Account-one (balance (answer_ledger t) s.executor) (lookup t s.callers) id mine
            (i.account t),
      ))
      (λ u other. elim (Option-cases (lookup id s.executor.pending)) [
        | inl missing ↦ omega (arith, (rw missing at (leaves u)))
        | inr (p, found) ↦
            let silent : due_answer u p ≡ 0 = ground (arith, other, i.owner t id p mine found) in
            omega (arith, silent, (rw found at (leaves u)))
      ])

pub drop_request-Leaves : (e : Executor) (id : ℕ) → IsSound e → Leaves e (drop_request e id) id
unfolding Leaves
drop_request-Leaves e id g u = elim (Option-cases (lookup id e.pending)) [
  | inl missing ↦ rw missing (
      omega (
        arith,
        (rw missing at
            (drop_request-balance (answer_ledger u) (answer_ledger-IsFair u) e id g.unique)),
      ))
  | inr (p, found) ↦ rw found (
      omega (
        arith,
        (rw found at
            (drop_request-balance (answer_ledger u) (answer_ledger-IsFair u) e id g.unique)),
      ))
]

pub fail_write-Leaves :
    (e : Executor) (id c : ℕ) (why : RequestError) → IsSound e → Leaves e (fail_write e id c why) id
unfolding Leaves fail_write
fail_write-Leaves e id c why g u = omega (
  arith,
  drop_request-Leaves e id g u,
  close_if_current-balance (answer_ledger u) (answer_ledger-IsFair u) (drop_request e id) c why,
)

cancel_pending-Leaves :
    (e : Executor) (id c : ℕ) → IsSound e → Leaves e (cancel_pending_data_request e id c) id
unfolding Leaves cancel_pending_data_request
cancel_pending-Leaves e id c g u = elim (Option-cases (lookup id e.pending)) [
  | inl missing ↦ simp (cancel_pending_data_request, missing) (omega arith)
  | inr (p, found) ↦ rw found (
      omega (
        arith,
        cancel_pending-balance (answer_ledger u) (answer_ledger-IsFair u) e id c p g.unique found
            refl,
      ))
]

pub cancels-Inv :
    (s : System) (t opcode id c : ℕ)
    → Inv s
    → lookup t s.callers ≡ some (waiting id c)
    → Inv (moves s (cancel s.executor opcode id c) t returned)
unfolding cancel
cancels-Inv s t opcode id c i mine = elim (Bool-cases (drains_on_cancellation opcode)) [
  | inl drains ↦
      let here : (p : Pending) → lookup id s.executor.pending ≡ some p → s.executor.conn ≡ some c =
        λ p found. i.conns t id c p mine found in
      simp (cancel, drains)
        (left-Inv s (cancel_pending_data_request s.executor id c) t id i (ap request_of mine)
          (cancel_pending-Settled s.executor id c i.sound here)
          (cancel_pending-Forgets s.executor id c i.sound here)
          (cancel_pending-Leaves s.executor id c i.sound))
  | inr drops ↦
      simp (cancel, drops)
        (left-Inv s (drop_request s.executor id) t id i (ap request_of mine)
          (drop_request-Settled s.executor id i.sound) (drop_request-Forgets s.executor id i.sound)
          (drop_request-Leaves s.executor id i.sound))
]
