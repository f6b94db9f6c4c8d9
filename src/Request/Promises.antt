-- ===== src/Request/Promises.antt =====
-- What the executor promises its callers, in every state that it can reach.
use ferricstore_go.Base.{
  ℕ, ◌+◌, ◌≤◌, ◌≡◌, ◌⊎◌, refl, sym, ap, subst, ◌∙◌, List, [], ◌∷◌, true, false, Option, none, some,
  ◌==◌, ==_iff, Bool-cases, Option-cases, inl, inr, arith,
}
use ferricstore_go.Base.Dict.{nat_eq, lookup, weight_at, weight_at-le}
use ferricstore_go.Request.Executor.{
  Executor, Pending, close_with, close_conn_locked, has_live_pending, close, mark_closed,
}
use ferricstore_go.Request.Ledger.{balance, owed}
use ferricstore_go.Request.System.{
  System, Caller, registered, waiting, returned, answer_ledger, due_answer, request_of,
  with_executor, answered, closes, Reachable, start, step, new_system,
}
use ferricstore_go.Request.Invariant.{Inv, Account}
use ferricstore_go.Base.Dict.{Unique}
use ferricstore_go.Request.Leaving.{Account-one}
use ferricstore_go.Request.Owed.{owed-own}
use ferricstore_go.Request.Interleaving.{Step-Inv}

new_system-Inv : Inv new_system
unfolding lookup
new_system-Inv = record {
  sound = record {
    unique = tt;
    draining_conn = λ h. absurd (let no : false ≡ true = h in cc);
    draining_live = λ h. absurd (let no : false ≡ true = h in cc);
  };
  account = λ t. refl;
  owner = λ t id p h found. absurd (let no : none ≡ some id = h in cc);
  active = λ j p found live. absurd (let no : none ≡ some p = found in cc);
  conns = λ t id c p h found. absurd (let no : none ≡ some (waiting id c) = h in cc);
  old_pending = λ j p found. absurd (let no : none ≡ some p = found in cc);
  old_callers = λ t id h. absurd (let no : none ≡ some id = h in cc);
}

pub Reachable-Inv : (s : System) → Reachable new_system s → Inv s
Reachable-Inv s start = new_system-Inv
Reachable-Inv s (step a b r x) = Step-Inv a s (Reachable-Inv a r) x

-- A live request of the caller is on the connection that it was written to, and unanswered.
abbrev pub Awaits : System → ℕ → ℕ → ℕ → Type 0
Awaits s t id c =
    (p : Pending) × ((lookup id s.executor.pending ≡ some p)
      × ((p.channel ≡ t)
          × ((p.abandoned ≡ false) × ((s.executor.conn ≡ some c) × (answered t s.executor ≡ 0)))))

-- In every state that a new executor reaches, a caller that waits for its answer either has a live
-- request on the connection that it was written to, which is still open, and no answer yet, or
-- has exactly one answer.
pub Reachable-answers :
    (s : System) (t id c : ℕ)
    → Reachable new_system s
    → lookup t s.callers ≡ some (waiting id c)
    → Awaits s t id c ⊎ (answered t s.executor ≡ 1)
Reachable-answers s t id c r mine =
    let i : Inv s = Reachable-Inv s r in
    let once : balance (answer_ledger t) s.executor ≡ 1 = rw mine at (i.account t) in
    let own : owed (answer_ledger t) s.executor
        ≡ weight_at (due_answer t) (lookup id s.executor.pending) =
      owed-own s t id i (ap request_of mine) in
    elim (Option-cases (lookup id s.executor.pending)) [
      | inl missing ↦ inr (omega (arith, once, (rw missing at own)))
      | inr (p, found) ↦
          let channel : p.channel ≡ t = i.owner t id p (ap request_of mine) found in
          elim (Bool-cases p.abandoned) [
            | inl gone ↦
                let nothing : due_answer t p ≡ 0 = ground (arith, gone) in
                inr (omega (arith, once, nothing, (rw found at own)))
            | inr live ↦
                let one : due_answer t p ≡ 1 = ground (arith, live, channel) in
                inl (
                  p,
                  (
                    found,
                    (
                      channel,
                      (
                        live,
                        (i.conns t id c p mine found, omega (arith, once, one, (rw found at own))),
                      ),
                    ),
                  ),
                )
          ]
    ]

-- No caller is answered twice, wherever it stands.
pub Reachable-once : (s : System) (t : ℕ) → Reachable new_system s → answered t s.executor ≤ 1
Reachable-once s t r =
    at_most_one (lookup t s.callers) (owed (answer_ledger t) s.executor) (answered t s.executor)
      ((Reachable-Inv s r).account t)
  where
    at_most_one : (o : Option Caller) (n m : ℕ) → Account (n + m) o → m ≤ 1
    at_most_one none n m h = omega arith
    at_most_one (some (registered id c)) n m h = omega arith
    at_most_one (some (waiting id c)) n m h = omega arith
    at_most_one (some returned) n m h = omega arith

live_entry :
    (m : List (ℕ × Pending))
    → Unique m
    → has_live_pending m ≡ true
    → (id : ℕ) × ((p : Pending) × ((lookup id m ≡ some p) × (p.abandoned ≡ false)))
unfolding has_live_pending lookup
live_entry [] u h = absurd (let no : false ≡ true = h in cc)
live_entry ((j, p) ∷ m) (new, u) h = elim (Bool-cases p.abandoned) [
  | inr live ↦ (j, (p, (ground (arith, ==_iff j j), live)))
  | inl gone ↦
      let (id, (q, (found, live))) = live_entry m u (rw gone at h) in
      (
        id,
        (
          q,
          (
            elim (Bool-cases (j == id)) [
              | inl same ↦ absurd (
                  let no : none ≡ some q =
                    sym new ∙ (ap (λ x. lookup x m) ((==_iff j id).0 same) ∙ found) in
                  cc)
              | inr other ↦ rw other found
            ],
            live,
          ),
        ),
      )
]

-- The caller of a pending request stands behind its write on this connection, or still before the write, which may
-- be one that it registered for on an earlier connection.
abbrev pub StandsFor : System → ℕ → ℕ → ℕ → Type 0
StandsFor s t id c =
    (lookup t s.callers ≡ some (waiting id c))
    ⊎ ((d : ℕ) × (lookup t s.callers ≡ some (registered id d)))

stands :
    (s : System) (t id c : ℕ) (p : Pending) (o : Option Caller)
    → Inv s
    → s.executor.conn ≡ some c
    → lookup id s.executor.pending ≡ some p
    → lookup t s.callers ≡ o
    → request_of o ≡ some id
    → StandsFor s t id c
stands s t id c p none i here found at mine = absurd (let no : none ≡ some id = mine in cc)
stands s t id c p (some (registered j d)) i here found at mine =
    let same : j ≡ id = cc in
    inr (d, subst (λ x. lookup t s.callers ≡ some (registered x d)) same at)
stands s t id c p (some (waiting j d)) i here found at mine =
    let same : j ≡ id = cc in
    let now : lookup t s.callers ≡ some (waiting id d) =
      subst (λ x. lookup t s.callers ≡ some (waiting x d)) same at in
    let conn : some d ≡ some c = sym (i.conns t id d p now found) ∙ here in
    let current : d ≡ c = cc in
    inl (subst (λ x. lookup t s.callers ≡ some (waiting id x)) current now)
stands s t id c p (some returned) i here found at mine =
    absurd (let no : none ≡ some id = mine in cc)

-- While a connection drains, it is open, and there is a request that is pending, not abandoned and unanswered,
-- and the caller that its answer goes to has either written it to this connection, or not written it yet.
-- Draining thus never outlives the last such request.
pub Reachable-drains :
    (s : System)
    → Reachable new_system s
    → s.executor.go_away ≡ true
    → (c : ℕ) × ((s.executor.conn ≡ some c)
        × ((id : ℕ) × ((p : Pending) × ((lookup id s.executor.pending ≡ some p)
                × ((p.abandoned ≡ false)
                    × (StandsFor s p.channel id c × (answered p.channel s.executor ≡ 0)))))))
Reachable-drains s r draining =
    let i : Inv s = Reachable-Inv s r in
    let (id, (p, (found, live))) =
      live_entry s.executor.pending i.sound.unique (i.sound.draining_live draining) in
    let mine : request_of (lookup p.channel s.callers) ≡ some id = i.active id p found live in
    let one : due_answer p.channel p ≡ 1 = ground (arith, live) in
    let once : balance (answer_ledger p.channel) s.executor ≡ 1 =
      Account-one (balance (answer_ledger p.channel) s.executor) (lookup p.channel s.callers) id
        mine (i.account p.channel) in
    let (c, here) = i.sound.draining_conn draining in
    let unanswered : answered p.channel s.executor ≡ 0 = omega (
      arith,
      once,
      one,
      (rw found at (weight_at-le (due_answer p.channel) id s.executor.pending)),
    ) in
    (
      c,
      (
        here,
        (
          id,
          (
            p,
            (
              found,
              (
                live,
                (
                  stands s p.channel id c p (lookup p.channel s.callers) i here found refl mine,
                  unanswered,
                ),
              ),
            ),
          ),
        ),
      ),
    )

close-empties : (e : Executor) (id : ℕ) → e.is_closed ≡ false → lookup id (close e).pending ≡ none
unfolding close mark_closed close_with close_conn_locked lookup
close-empties e id running = simp (close, running) refl

-- Closing an executor that is open leaves no caller waiting: each has exactly one answer.
pub close-answers :
    (s : System) (t id c : ℕ)
    → Reachable new_system s
    → s.executor.is_closed ≡ false
    → lookup t s.callers ≡ some (waiting id c)
    → answered t (close s.executor) ≡ 1
close-answers s t id c r running mine =
    let after : System = with_executor s (close s.executor) in
    elim (Reachable-answers after t id c (step s after r closes) mine) [
      | inl (p, (found, _)) ↦
          absurd (let no : none ≡ some p = sym (close-empties s.executor id running) ∙ found in cc)
      | inr one ↦ one
    ]
