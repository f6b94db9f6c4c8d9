-- ===== src/Request/Credits.antt =====
-- The credits that requests take before they register, and their release.
use ferricstore_go.Request.Ledger.{close_and_fail-balance}
use ferricstore_go.Request.System.{resets}
use ferricstore_go.Base.{
  ℕ, ◌+◌, ◌≡◌, refl, ap, sym, ◌∙◌, Bool, ◌&&◌, ◌||◌, Option, none, some, Result, ok, err, ◌==◌,
  if◌then◌else◌, Bool-cases, Option-cases, inl, inr, arith,
}
use ferricstore_go.Base.Dict.{nat_eq, lookup, total-insert, Unique}
use ferricstore_go.Request.Executor.{
  Executor, Pending, Effect, releases, credit_effects, begin_request, install, drop_request,
  fail_write, cancel, drains_on_cancellation, cancel_pending_data_request, RequestError, net_closed,
}
use ferricstore_go.Request.Identifiers.{add_pending}
use ferricstore_go.Request.Ledger.{
  Ledger, IsFair, spent, balance, owed, drop_request-balance, close_if_current-balance,
  cancel_pending-balance, deliver-balance, handle_go_away-balance,
}
use ferricstore_go.Request.Closing.{
  end_request-balance, retire-balance, close-balance, close_unless_retiring-balance,
}
use ferricstore_go.Request.System.{
  System, Step, Reachable, start, step, registers, writes, refuses, breaks, cancels, returns,
  delivers, goes_away, fails, heartbeat_fails, begins, ends, retires, closes, installs, new_system,
  new_pending,
}
use ferricstore_go.Request.Invariant.{Inv}
use ferricstore_go.Request.Promises.{Reachable-Inv}

-- One release of a credit of this lane to this controller.
abbrev pub on_credit : ℕ → ℕ → Effect → ℕ
on_credit f lane (releases g l) = if g == f && l == lane then 1 else 0
on_credit f lane _ = 0

abbrev pub credit_weight : ℕ → ℕ → Option ℕ → ℕ → ℕ
credit_weight f lane none l = 0
credit_weight f lane (some g) l = if g == f && l == lane then 1 else 0

abbrev pub held_by : ℕ → ℕ → Pending → ℕ
held_by f lane p = credit_weight f lane p.flow_credit p.lane_id

abbrev pub credit_ledger : ℕ → ℕ → Ledger
credit_ledger f lane = record {
  cost = on_credit f lane;
  due = held_by f lane;
  on_release = held_by f lane;
  flow_free = λ g. refl;
  conn_free = λ c. refl;
  drain_free = λ c. refl;
}

-- The credits that pending requests hold, and those that were released.
abbrev pub held : ℕ → ℕ → Executor → ℕ
held f lane e = owed (credit_ledger f lane) e

abbrev pub released : ℕ → ℕ → Executor → ℕ
released f lane e = spent (credit_ledger f lane) e.log

credit_effects-weight :
    (f lane : ℕ) (credit : Option ℕ) (l : ℕ)
    → spent (credit_ledger f lane) (credit_effects credit l) ≡ credit_weight f lane credit l
credit_effects-weight f lane none l = refl
credit_effects-weight f lane (some g) l = omega arith

credit_ledger-IsFair : (f lane : ℕ) → IsFair (credit_ledger f lane)
credit_ledger-IsFair f lane = record {
  releasing = λ p. credit_effects-weight f lane p.flow_credit p.lane_id;
  answering = λ p a. elim (Bool-cases p.abandoned) [
    | inl gone ↦ simp gone (omega arith)
    | inr live ↦ simp live (omega arith)
  ];
}

-- The credits that the callers registered with on the way to a state.
abbrev pub taken_by : ℕ → ℕ → {s s' : System} → Step s s' → ℕ
taken_by f lane (registers t opcode l mode credit c id absent found fresh) =
    credit_weight f lane credit l
taken_by f lane _ = 0

abbrev pub taken : ℕ → ℕ → {s s' : System} → Reachable s s' → ℕ
taken f lane start = 0
taken f lane (step a b r x) = taken f lane r + taken_by f lane x

-- The two laws that hold of a credit ledger alone: a request that is dropped or given up has its
-- credit released, now or with the connection.
module _ (f lane : ℕ) where
  drop_request-credits :
      (e : Executor) (id : ℕ)
      → Unique e.pending
      → balance (credit_ledger f lane) (drop_request e id) ≡ balance (credit_ledger f lane) e
  drop_request-credits e id u = elim (Option-cases (lookup id e.pending)) [
    | inl missing ↦ omega (
      arith,
      (rw missing at
          (drop_request-balance (credit_ledger f lane) (credit_ledger-IsFair f lane) e id u)),
    )
    | inr (p, found) ↦ omega (
      arith,
      (rw found at
          (drop_request-balance (credit_ledger f lane) (credit_ledger-IsFair f lane) e id u)),
    )
  ]

  cancel-credits :
      (e : Executor) (opcode id c : ℕ)
      → Unique e.pending
      → balance (credit_ledger f lane) (cancel e opcode id c) ≡ balance (credit_ledger f lane) e
  unfolding cancel cancel_pending_data_request
  cancel-credits e opcode id c u = elim (Bool-cases (drains_on_cancellation opcode)) [
    | inr drops ↦ simp (cancel, drops) (drop_request-credits e id u)
    | inl drains ↦ elim (Option-cases (lookup id e.pending)) [
      | inl missing ↦ simp (cancel, drains, cancel_pending_data_request, missing) refl
      | inr (p, found) ↦
          simp (cancel, drains)
            (omega (
              arith,
              cancel_pending-balance (credit_ledger f lane) (credit_ledger-IsFair f lane) e id c p u
                  found refl,
            ))
    ]
  ]

  fail_write-credits :
      (e : Executor) (id c : ℕ) (why : RequestError)
      → Unique e.pending
      → balance (credit_ledger f lane) (fail_write e id c why) ≡ balance (credit_ledger f lane) e
  unfolding fail_write
  fail_write-credits e id c why u =
      close_if_current-balance (credit_ledger f lane) (credit_ledger-IsFair f lane)
        (drop_request e id) c why
      ∙ drop_request-credits e id u

  registers-credits :
      (e : Executor) (id : ℕ) (p : Pending)
      → lookup id e.pending ≡ none
      → balance (credit_ledger f lane) (add_pending e id p)
        ≡ balance (credit_ledger f lane) e + held_by f lane p
  unfolding add_pending
  registers-credits e id p unused =
      omega (arith, (rw unused at (total-insert (held_by f lane) id p e.pending)))

  begin_request-credits :
      (e e' : Executor)
      → begin_request e ≡ ok e'
      → balance (credit_ledger f lane) e' ≡ balance (credit_ledger f lane) e
  unfolding begin_request
  begin_request-credits e e' h = elim (Bool-cases (e.is_closed || e.retiring)) [
    | inl out ↦ absurd (let no : err net_closed ≡ ok e' = simp (begin_request, out) at h in cc)
    | inr running ↦
        let now : ok (record e { active_requests = e.active_requests + 1 }) ≡ ok e' =
          simp (begin_request, running) at h in
        ap balance_of (sym now)
  ]
    where
      balance_of : Result RequestError Executor → ℕ
      balance_of (ok x) = balance (credit_ledger f lane) x
      balance_of (err x) = balance (credit_ledger f lane) e

  install-credits :
      (e : Executor) (c g : ℕ) (beats : Bool)
      → balance (credit_ledger f lane) (install e c g beats) ≡ balance (credit_ledger f lane) e
  unfolding install
  install-credits e c g beats = elim (Bool-cases (e.is_closed || e.retiring)) [
    | inl out ↦ simp (install, out) refl
    | inr running ↦ simp (install, running) refl
  ]

  Step-credits :
      (s s' : System)
      → Inv s
      → (x : Step s s')
      → balance (credit_ledger f lane) s'.executor
        ≡ balance (credit_ledger f lane) s.executor + taken_by f lane x
  Step-credits s s' i (registers t opcode l mode credit c id absent found fresh) =
      registers-credits s.executor id (new_pending t opcode l mode credit) unused
    where
      unused : lookup id s.executor.pending ≡ none
      unused = elim (Option-cases (lookup id s.executor.pending)) [
        | inl missing ↦ missing
        | inr (p, there) ↦ absurd (omega (arith, i.old_pending id p there))
      ]
  Step-credits s s' i (writes t id c mine admitted) = omega arith
  Step-credits s s' i (refuses t id c mine) =
      omega (arith, drop_request-credits s.executor id i.sound.unique)
  Step-credits s s' i (breaks t id c why mine) =
      omega (arith, fail_write-credits s.executor id c why i.sound.unique)
  Step-credits s s' i (cancels t opcode id c mine) =
      omega (arith, cancel-credits s.executor opcode id c i.sound.unique)
  Step-credits s s' i (returns t id c mine got) = omega arith
  Step-credits s s' i (delivers c frame) = omega (
    arith,
    deliver-balance (credit_ledger f lane) (credit_ledger-IsFair f lane) s.executor c frame
        i.sound.unique,
  )
  Step-credits s s' i (goes_away c) = omega (
    arith,
    handle_go_away-balance (credit_ledger f lane) (credit_ledger-IsFair f lane) s.executor c,
  )
  Step-credits s s' i (fails c why) = omega (
    arith,
    close_if_current-balance (credit_ledger f lane) (credit_ledger-IsFair f lane) s.executor c why,
  )
  Step-credits s s' i (resets why) = omega (
    arith,
    close_and_fail-balance (credit_ledger f lane) (credit_ledger-IsFair f lane) s.executor why,
  )
  Step-credits s s' i (heartbeat_fails why) = omega (
    arith,
    close_unless_retiring-balance (credit_ledger f lane) (credit_ledger-IsFair f lane) s.executor
        why,
  )
  Step-credits s s' i (begins e h) = omega (arith, begin_request-credits s.executor e h)
  Step-credits s s' i ends =
      omega
        (arith, end_request-balance (credit_ledger f lane) (credit_ledger-IsFair f lane) s.executor)
  Step-credits s s' i retires =
      omega (arith, retire-balance (credit_ledger f lane) (credit_ledger-IsFair f lane) s.executor)
  Step-credits s s' i closes =
      omega (arith, close-balance (credit_ledger f lane) (credit_ledger-IsFair f lane) s.executor)
  Step-credits s s' i (installs c g beats unconnected) =
      omega (arith, install-credits s.executor c g beats)

-- On every way to a state, each credit of a controller and lane that a request was registered with is
-- either held by a pending request or was released, and none was released twice.
pub Reachable-credits :
    (s : System) (f lane : ℕ) (r : Reachable new_system s)
    → held f lane s.executor + released f lane s.executor ≡ taken f lane r
Reachable-credits s f lane start = refl
Reachable-credits s f lane (step a b r x) =
    omega (arith, Step-credits f lane a s (Reachable-Inv a r) x, Reachable-credits a f lane r)
