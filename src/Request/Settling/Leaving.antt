-- ===== src/Request/Settling/Leaving.antt =====
-- Callers that give up, and the calls that close the executor.
use ferricstore_go.Base.{
  ℕ, ◌-◌, ◌≡◌, refl, sym, ap, ◌∙◌, [], Bool, true, false, ◌||◌, not, Bool-cases, Option-cases, inl,
  inr, none, some, ◌==◌, arith,
}
use ferricstore_go.Base.Dict.{
  nat_eq, lookup, delete, insert, insert-Unique, lookup-delete_self, lookup-insert_self,
}
use ferricstore_go.Request.Executor.{
  Executor, Pending, RequestError, net_closed, close_conn_locked, close_with, close_and_fail,
  close_unless_retiring, close_if_idle, remove_pending, drop_request, start_drain, schedule,
  cancel_pending_data_request, is_conn, mark_closed, end_request, retire, close, fail_write,
}
use ferricstore_go.Request.Settling.{
  Settles, IsSound, Settles-refl, Settles-trans, close_with-Settles, given_up-Settles, no_entry,
}
use ferricstore_go.Request.Settling.Operations.{
  Settled, close_if_idle-Settled, close_if_draining-Settled, schedule-Settled, start_drain-Ready,
  removed-Ready, drop_request-Settled, close_if_current-Settled,
}

-- A caller that gives up waits on the current connection, or is no longer pending.
pub cancel_pending-Settled :
    (e : Executor) (id c : ℕ)
    → IsSound e
    → ((p : Pending) → lookup id e.pending ≡ some p → e.conn ≡ some c)
    → Settled e (cancel_pending_data_request e id c)
unfolding cancel_pending_data_request
cancel_pending-Settled e id c g here = elim (Option-cases (lookup id e.pending)) [
  | inl missing ↦ simp (cancel_pending_data_request, missing) (Settles-refl e, g)
  | inr (p, found) ↦
      let e1 : Executor = record e {
        pending = insert id (record p { abandoned = true }) e.pending;
      } in
      let (s, r) =
        start_drain-Ready e1 c (insert-Unique id (record p { abandoned = true }) e.pending g.unique)
          (here p found) in
      let (s', g') = close_if_idle-Settled (start_drain e1) r in
      let conn : is_conn e.conn c ≡ true = ground (arith, here p found) in
      simp (cancel_pending_data_request, found, conn)
        (schedule-Settled e.go_away c e (close_if_idle (start_drain e1)) (
          Settles-trans e e1 (close_if_idle (start_drain e1)) (given_up-Settles e id p found)
              (Settles-trans e1 (start_drain e1) (close_if_idle (start_drain e1)) s s'),
          g',
        ))
]

given_up :
    (p q : Pending)
    → (q.abandoned ≡ false → p.abandoned ≡ false)
    → p.abandoned ≡ true
    → q.abandoned ≡ true
given_up p q live gone = elim (Bool-cases q.abandoned) [
  | inl done ↦ done
  | inr still ↦ absurd (let bad : true ≡ false = sym gone ∙ live still in cc)
]

-- A request that is forgotten is out of the map, or is left there without a caller.
abbrev pub Forgets : Executor → ℕ → Type 0
Forgets e id = (q : Pending) → lookup id e.pending ≡ some q → q.abandoned ≡ true

removed-Forgets :
    (e e' : Executor) (id : ℕ)
    → Settles (record e { pending = delete id e.pending }) e'
    → Forgets e' id
removed-Forgets e e' id s q h =
    let (p, (there, _)) = s.kept id q h in
    absurd (let no : none ≡ some p = rw (lookup-delete_self id e.pending) at there in cc)

remove_pending-Forgets : (e : Executor) (id : ℕ) → IsSound e → Forgets (remove_pending e id) id
unfolding remove_pending
remove_pending-Forgets e id g =
    removed-Forgets e (remove_pending e id) id
      (close_if_draining-Settled (record e { pending = delete id e.pending })
        (removed-Ready e id g)).0

pub drop_request-Forgets : (e : Executor) (id : ℕ) → IsSound e → Forgets (drop_request e id) id
unfolding drop_request
drop_request-Forgets e id g = elim (Option-cases (lookup id e.pending)) [
  | inl missing ↦ simp (drop_request, missing) (remove_pending-Forgets e id g)
  | inr (p, found) ↦ simp (drop_request, found) (remove_pending-Forgets e id g)
]

pub cancel_pending-Forgets :
    (e : Executor) (id c : ℕ)
    → IsSound e
    → ((p : Pending) → lookup id e.pending ≡ some p → e.conn ≡ some c)
    → Forgets (cancel_pending_data_request e id c) id
unfolding cancel_pending_data_request
cancel_pending-Forgets e id c g here = elim (Option-cases (lookup id e.pending)) [
  | inl missing ↦
      simp (cancel_pending_data_request, missing) (λ q h. absurd (let no : none ≡ some q = h in cc))
  | inr (p, found) ↦
      let e1 : Executor = record e {
        pending = insert id (record p { abandoned = true }) e.pending;
      } in
      let (s, r) =
        start_drain-Ready e1 c (insert-Unique id (record p { abandoned = true }) e.pending g.unique)
          (here p found) in
      let (s', g') = close_if_idle-Settled (start_drain e1) r in
      let conn : is_conn e.conn c ≡ true = ground (arith, here p found) in
      simp (cancel_pending_data_request, found, conn)
        (scheduled e.go_away (close_if_idle (start_drain e1)) (λ q h.
          let (p1, (there, (_, live))) =
            (Settles-trans e1 (start_drain e1) (close_if_idle (start_drain e1)) s s').kept id q h in
          let now : some (record p { abandoned = true }) ≡ some p1 =
            sym (lookup-insert_self id (record p { abandoned = true }) e.pending) ∙ there in
          given_up p1 q live (
            let same : record p { abandoned = true } ≡ p1 = cc in
            ap (λ x. x.abandoned) (sym same))))
]
  where
    scheduled :
        (draining : Bool) (e' : Executor) → Forgets e' id → Forgets (schedule draining c e') id
    scheduled true e' f = f
    scheduled false e' f = f

-- The fields that are set before a close do not matter to it.
closed-Settled :
    (e e' : Executor) (why : RequestError)
    → e'.next_id ≡ e.next_id
    → Settled e (close_and_fail e' why)
unfolding close_with close_conn_locked
closed-Settled e e' why h =
    let (s, g) = close_with-Settles e' [] why in
    (
      record {
        kept = λ j q k. no_entry j q k;
        same_conn = λ j q k. no_entry j q k;
        same_next = s.same_next ∙ h;
      },
      g,
    )

pub end_request-Settled : (e : Executor) → IsSound e → Settled e (end_request e)
unfolding end_request mark_closed
end_request-Settled e g =
    let e' : Executor = record e { active_requests = e.active_requests - 1 } in
    elim (Bool-cases (not (e.active_requests - 1 == 0) || (not e.retiring || e.is_closed))) [
      | inl stays ↦
          simp (end_request, stays)
            (
              record {
                kept = λ j q k. (q, (k, (refl, λ live. live)));
                same_conn = λ j q k. refl;
                same_next = refl;
              },
              record {
                unique = g.unique;
                draining_conn = g.draining_conn;
                draining_live = g.draining_live;
              },
            )
      | inr last ↦ simp (end_request, last) (closed-Settled e (mark_closed e') net_closed refl)
    ]

pub retire-Settled : (e : Executor) → IsSound e → Settled e (retire e)
unfolding retire mark_closed
retire-Settled e g = elim (Bool-cases (e.is_closed || e.retiring)) [
  | inl out ↦ simp (retire, out) (Settles-refl e, g)
  | inr running ↦
      let e' : Executor = record e { retiring = true; heartbeat = false } in
      elim (Bool-cases (e.active_requests == 0)) [
        | inl idle ↦
            simp (retire, running, idle) (closed-Settled e (mark_closed e') net_closed refl)
        | inr busy ↦
            simp (retire, running, busy)
              (
                record {
                  kept = λ j q k. (q, (k, (refl, λ live. live)));
                  same_conn = λ j q k. refl;
                  same_next = refl;
                },
                record {
                  unique = g.unique;
                  draining_conn = g.draining_conn;
                  draining_live = g.draining_live;
                },
              )
      ]
]

pub close-Settled : (e : Executor) → IsSound e → Settled e (close e)
unfolding close mark_closed
close-Settled e g = elim (Bool-cases e.is_closed) [
  | inl shut ↦ simp (close, shut) (Settles-refl e, g)
  | inr running ↦ simp (close, running) (closed-Settled e (mark_closed e) net_closed refl)
]

pub close_unless_retiring-Settled :
    (e : Executor) (why : RequestError) → IsSound e → Settled e (close_unless_retiring e why)
unfolding close_unless_retiring
close_unless_retiring-Settled e why g = elim (Bool-cases (e.retiring || e.is_closed)) [
  | inl out ↦ simp (close_unless_retiring, out) (Settles-refl e, g)
  | inr running ↦ simp (close_unless_retiring, running) (close_with-Settles e [] why)
]

pub fail_write-Settled :
    (e : Executor) (id c : ℕ) (why : RequestError) → IsSound e → Settled e (fail_write e id c why)
unfolding fail_write
fail_write-Settled e id c why g =
    let (s, g') = drop_request-Settled e id g in
    let (s', g'') = close_if_current-Settled (drop_request e id) c why g' in
    (Settles-trans e (drop_request e id) (fail_write e id c why) s s', g'')

pub fail_write-Forgets :
    (e : Executor) (id c : ℕ) (why : RequestError) → IsSound e → Forgets (fail_write e id c why) id
unfolding fail_write
fail_write-Forgets e id c why g q h =
    let (s, g') = drop_request-Settled e id g in
    let (p, (there, (_, live))) =
      (close_if_current-Settled (drop_request e id) c why g').0.kept id q h in
    let gone : p.abandoned ≡ true = drop_request-Forgets e id g p there in given_up p q live gone
