-- ===== src/Request/Ledger.antt =====
-- What the operations on pending requests owe and have spent: a count over the pending requests and
-- the effects that every operation keeps. The counts of answers and of credits are two instances.
use ferricstore_go.Base.{
  ℕ, ◌+◌, ◌≡◌, refl, List, [], ◌∷◌, ◌++◌, Bool, true, false, ◌&&◌, ◌||◌, not, Bool-cases,
  Option-cases, inl, inr, Option, none, some, arith,
}
use ferricstore_go.Base.Dict.{
  nat_eq, lookup, delete, insert, total, weight_at, total-delete, total-insert, Unique,
}
use ferricstore_go.Wire.Value.{Value}
use ferricstore_go.Frame.Response.{Response}
use ferricstore_go.Request.Executor.{
  Executor, Pending, Effect, Answer, response, failure, closes_flow, closes_conn, schedules_drain,
  RequestError, connection_unavailable, release_effects, answer_effects, fail_pending,
  has_live_pending, flow_effects, conn_effects, close_conn_locked, close_with, close_and_fail,
  close_if_current, close_if_idle, drop_request, remove_pending, close_if_draining, start_drain,
  schedule, settle, cancel_pending_data_request, handle_go_away, deliver, is_conn, matches,
  mismatch,
}

-- What an effect spends, and what a pending request is due until it is answered.
pub record Ledger : Type 0 where
  pub cost : Effect → ℕ
  pub due : Pending → ℕ
  pub on_release : Pending → ℕ
  pub flow_free : (f : ℕ) → cost (closes_flow f) ≡ 0
  pub conn_free : (c : ℕ) → cost (closes_conn c) ≡ 0
  pub drain_free : (c : ℕ) → cost (schedules_drain c) ≡ 0

abbrev pub spent : Ledger → List Effect → ℕ
spent l [] = 0
spent l (x ∷ xs) = l.cost x + spent l xs

-- A request that is released is given what it is due, one that is answered too.
pub record IsFair (l : Ledger) : Type 0 where
  pub releasing : (p : Pending) → spent l (release_effects p) ≡ l.on_release p
  pub answering :
      (p : Pending) (a : Answer) → l.on_release p + spent l (answer_effects p a) ≡ l.due p

abbrev pub owed : Ledger → Executor → ℕ
owed l e = total l.due e.pending

abbrev pub balance : Ledger → Executor → ℕ
balance l e = owed l e + spent l e.log

module _ (l : Ledger) where
  pub spent-append : (xs ys : List Effect) → spent l (xs ++ ys) ≡ spent l xs + spent l ys
  spent-append [] ys = omega arith
  spent-append (x ∷ xs) ys = omega (arith, spent-append xs ys)

  flow_effects-free : (f : Option ℕ) → spent l (flow_effects f) ≡ 0
  flow_effects-free none = refl
  flow_effects-free (some f) = omega (arith, l.flow_free f)

  conn_effects-free : (c : Option ℕ) → spent l (conn_effects c) ≡ 0
  conn_effects-free none = refl
  conn_effects-free (some c) = omega (arith, l.conn_free c)

module _ (l : Ledger) (fair : IsFair l) where
  fail_pending-pays :
      (m : List (ℕ × Pending)) (why : RequestError) → spent l (fail_pending m why) ≡ total l.due m
  unfolding fail_pending
  fail_pending-pays [] why = refl
  fail_pending-pays ((id, p) ∷ m) why = omega (
    arith,
    spent-append l (release_effects p) (answer_effects p (failure why) ++ fail_pending m why),
    spent-append l (answer_effects p (failure why)) (fail_pending m why),
    fair.releasing p,
    fair.answering p (failure why),
    fail_pending-pays m why,
  )

  pub close_with-balance :
      (e : Executor) (between : List Effect) (why : RequestError)
      → balance l (close_with e between why) ≡ balance l e + spent l between
  unfolding close_with close_conn_locked
  close_with-balance e between why = omega (
    arith,
    spent-append l (e.log ++ (flow_effects e.flow ++ conn_effects e.conn))
        (between ++ fail_pending e.pending why),
    spent-append l e.log (flow_effects e.flow ++ conn_effects e.conn),
    spent-append l (flow_effects e.flow) (conn_effects e.conn),
    spent-append l between (fail_pending e.pending why),
    flow_effects-free l e.flow,
    conn_effects-free l e.conn,
    fail_pending-pays e.pending why,
  )

  pub close_and_fail-balance :
      (e : Executor) (why : RequestError) → balance l (close_and_fail e why) ≡ balance l e
  close_and_fail-balance e why = omega (arith, close_with-balance e [] why)

  pub close_if_current-balance :
      (e : Executor) (c : ℕ) (why : RequestError)
      → balance l (close_if_current e c why) ≡ balance l e
  unfolding close_if_current
  close_if_current-balance e c why = elim (Bool-cases (is_conn e.conn c)) [
    | inl same ↦ simp (close_if_current, same) (close_and_fail-balance e why)
    | inr other ↦ simp (close_if_current, other) refl
  ]

  pub settle-balance :
      (e : Executor) (effects : List Effect)
      → balance l (settle e effects) ≡ balance l e + spent l effects
  unfolding settle
  settle-balance e effects = elim (Bool-cases (e.go_away && not (has_live_pending e.pending))) [
    | inl idle ↦ simp (settle, idle) (close_with-balance e effects connection_unavailable)
    | inr busy ↦ simp (settle, busy) (omega (arith, spent-append l e.log effects))
  ]

  close_if_idle-balance : (e : Executor) → balance l (close_if_idle e) ≡ balance l e
  unfolding close_if_idle
  close_if_idle-balance e = elim (Bool-cases (has_live_pending e.pending)) [
    | inl live ↦ simp (close_if_idle, live) refl
    | inr idle ↦ simp (close_if_idle, idle) (close_and_fail-balance e connection_unavailable)
  ]

  start_drain-balance : (e : Executor) → balance l (start_drain e) ≡ balance l e
  unfolding start_drain
  start_drain-balance e = elim (Bool-cases e.go_away) [
    | inl draining ↦ simp (start_drain, draining) refl
    | inr idle ↦ simp (start_drain, idle) refl
  ]

  schedule-balance :
      (draining : Bool) (c : ℕ) (e : Executor) → balance l (schedule draining c e) ≡ balance l e
  schedule-balance true c e = refl
  schedule-balance false c e =
      omega (arith, spent-append l e.log (schedules_drain c ∷ []), l.drain_free c)

  pub handle_go_away-balance : (e : Executor) (c : ℕ) → balance l (handle_go_away e c) ≡ balance l e
  unfolding handle_go_away
  handle_go_away-balance e c = elim (Bool-cases (not (is_conn e.conn c) || e.go_away)) [
    | inl nothing ↦ simp (handle_go_away, nothing) refl
    | inr drains ↦
        simp (handle_go_away, drains)
          (omega (
            arith,
            schedule-balance false c (close_if_idle (start_drain e)),
            close_if_idle-balance (start_drain e),
            start_drain-balance e,
          ))
  ]

  pub deliver-balance :
      (e : Executor) (c : ℕ) (frame : Response Value)
      → Unique e.pending
      → balance l (deliver e c frame) ≡ balance l e
  unfolding deliver
  deliver-balance e c frame u = elim (Bool-cases (is_conn e.conn c)) [
    | inr other ↦ simp (deliver, other) refl
    | inl same ↦ elim (Option-cases (lookup frame.request_id e.pending)) [
      | inl missing ↦
          simp (deliver, same, missing)
            (omega (
              arith,
              settle-balance (record e { pending = delete frame.request_id e.pending }) [],
              deleted missing,
            ))
      | inr (p, found) ↦ elim (Bool-cases (matches p frame.opcode frame.lane_id)) [
        | inl fits ↦
            simp (deliver, same, found, fits)
              (omega (
                arith,
                settle-balance (record e { pending = delete frame.request_id e.pending })
                    (release_effects p ++ answer_effects p (response frame)),
                spent-append l (release_effects p) (answer_effects p (response frame)),
                fair.releasing p,
                fair.answering p (response frame),
                deleted found,
              ))
        | inr misfit ↦
            simp (deliver, same, found, misfit)
              (close_if_current-balance e c (mismatch frame.lane_id frame.opcode frame.request_id))
      ]
    ]
  ]
    where
      deleted :
          {o : Option Pending}
          → lookup frame.request_id e.pending ≡ o
          → total l.due (delete frame.request_id e.pending) + weight_at l.due o
            ≡ total l.due e.pending
      deleted h = rw h at (total-delete l.due frame.request_id e.pending u)

  close_if_draining-balance : (e : Executor) → balance l (close_if_draining e) ≡ balance l e
  unfolding close_if_draining
  close_if_draining-balance e = elim (Bool-cases e.go_away) [
    | inl draining ↦ simp (close_if_draining, draining) (close_if_idle-balance e)
    | inr steady ↦ simp (close_if_draining, steady) refl
  ]

  remove_pending-balance :
      (e : Executor) (id : ℕ)
      → Unique e.pending
      → balance l (remove_pending e id) + weight_at l.due (lookup id e.pending) ≡ balance l e
  unfolding remove_pending
  remove_pending-balance e id u = omega (
    arith,
    close_if_draining-balance (record e { pending = delete id e.pending }),
    total-delete l.due id e.pending u,
  )

  -- A request that is dropped gets its release and nothing else.
  pub drop_request-balance :
      (e : Executor) (id : ℕ)
      → Unique e.pending
      → balance l (drop_request e id) + weight_at l.due (lookup id e.pending)
        ≡ balance l e + weight_at l.on_release (lookup id e.pending)
  unfolding drop_request
  drop_request-balance e id u = elim (Option-cases (lookup id e.pending)) [
    | inl missing ↦
        simp (drop_request, missing)
          (omega (arith, (rw missing at (remove_pending-balance e id u))))
    | inr (p, found) ↦
        simp (drop_request, found)
          (omega (
            arith,
            spent-append l (remove_pending e id).log (release_effects p),
            fair.releasing p,
            (rw found at (remove_pending-balance e id u)),
          ))
  ]

  -- A request that is given up is no longer due its answer; where another connection is open, it
  -- goes at once.
  pub cancel_pending-balance :
      (e : Executor) (id c : ℕ) (p : Pending)
      → Unique e.pending
      → lookup id e.pending ≡ some p
      → l.due (record p { abandoned = true }) ≡ l.on_release p
      → balance l (cancel_pending_data_request e id c) + l.due p ≡ balance l e + l.on_release p
  unfolding cancel_pending_data_request
  cancel_pending-balance e id c p u found given_up = elim (Bool-cases (is_conn e.conn c)) [
    | inl same ↦
        let e' : Executor = record e {
          pending = insert id (record p { abandoned = true }) e.pending;
        } in
        simp (cancel_pending_data_request, found, same)
          (omega (
            arith,
            schedule-balance e.go_away c (close_if_idle (start_drain e')),
            close_if_idle-balance (start_drain e'),
            start_drain-balance e',
            (rw found at (total-insert l.due id (record p { abandoned = true }) e.pending)),
            given_up,
          ))
    | inr other ↦
        simp (cancel_pending_data_request, found, other)
          (omega (
            arith,
            spent-append l e.log (release_effects p),
            fair.releasing p,
            (rw found at (total-delete l.due id e.pending u)),
          ))
  ]
