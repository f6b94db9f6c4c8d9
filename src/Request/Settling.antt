-- ===== src/Request/Settling.antt =====
-- How the operations change the map of pending requests: entries only go or are given up, the whole map
-- goes with the connection, and a draining connection keeps a live request.
pub mod Operations
pub mod Leaving
use ferricstore_go.Base.{
  ℕ, ◌+◌, ◌-◌, ◌≡◌, refl, sym, ap, ◌∙◌, List, [], ◌∷◌, ◌++◌, Bool, true, false, ◌&&◌, ◌||◌, not,
  Bool-cases, Option-cases, inl, inr, Option, none, some, ◌==◌, ==_iff, arith,
}
use ferricstore_go.Base.Dict.{
  nat_eq, lookup, delete, insert, Unique, delete-Unique, insert-Unique, lookup-delete,
  lookup-insert, lookup-delete_self, lookup-insert_self,
}
use ferricstore_go.Wire.Value.{Value}
use ferricstore_go.Frame.Response.{Response}
use ferricstore_go.Request.Executor.{
  Executor, Pending, Effect, response, schedules_drain, RequestError, connection_unavailable,
  net_closed, release_effects, answer_effects, has_live_pending, close_conn_locked, close_with,
  close_and_fail, close_if_current, close_unless_retiring, close_if_idle, close_if_draining,
  remove_pending, drop_request, start_drain, schedule, settle, cancel_pending_data_request,
  handle_go_away, deliver, is_conn, matches, mismatch, mark_closed, end_request, retire, close,
  fail_write,
}

-- An entry that is left was there, for the same channel, and is not live again.
abbrev pub Kept : Pending → Pending → Type 0
Kept p q = (q.channel ≡ p.channel) × (q.abandoned ≡ false → p.abandoned ≡ false)

pub record Settles (e e' : Executor) : Type 0 where
  pub kept :
      (j : ℕ) (q : Pending)
      → lookup j e'.pending ≡ some q
      → (p : Pending) × ((lookup j e.pending ≡ some p) × Kept p q)
  pub same_conn : (j : ℕ) (q : Pending) → lookup j e'.pending ≡ some q → e'.conn ≡ e.conn
  pub same_next : e'.next_id ≡ e.next_id

-- A connection that drains is there and has a live request, and no identifier is pending twice.
pub record IsSound (e : Executor) : Type 0 where
  pub unique : Unique e.pending
  pub draining_conn : e.go_away ≡ true → (c : ℕ) × (e.conn ≡ some c)
  pub draining_live : e.go_away ≡ true → has_live_pending e.pending ≡ true

pub Settles-refl : (e : Executor) → Settles e e
Settles-refl e = record {
  kept = λ j q h. (q, (h, (refl, λ live. live)));
  same_conn = λ j q h. refl;
  same_next = refl;
}

pub Settles-trans : (a b c : Executor) → Settles a b → Settles b c → Settles a c
Settles-trans a b c s t = record {
  kept = λ j r h.
      let (q, (found, (same, live))) = t.kept j r h in
      let (p, (found', (same', live'))) = s.kept j q found in
      (p, (found', (same ∙ same', λ x. live' (live x))));
  same_conn =
      λ j r h. let (q, (found, _)) = t.kept j r h in t.same_conn j r h ∙ s.same_conn j q found;
  same_next = t.same_next ∙ s.same_next;
}

pub no_entry : {A : Type 0} (j : ℕ) (q : Pending) → lookup j [] ≡ some q → A
unfolding lookup
no_entry j q h = absurd cc

pub close_with-Settles :
    (e : Executor) (between : List Effect) (why : RequestError)
    → Settles e (close_with e between why) × IsSound (close_with e between why)
unfolding close_with close_conn_locked
close_with-Settles e between why = (
  record { kept = λ j q h. no_entry j q h; same_conn = λ j q h. no_entry j q h; same_next = refl },
  record {
    unique = tt;
    draining_conn = λ h. absurd (let no : false ≡ true = h in cc);
    draining_live = λ h. absurd (let no : false ≡ true = h in cc);
  },
)

pub removed-Settles :
    (e : Executor) (id : ℕ) → Settles e (record e { pending = delete id e.pending })
removed-Settles e id = record {
  kept = λ j q h. (
    q,
    (
      elim (Bool-cases (id == j)) [
        | inl same ↦
            absurd (let no : none ≡ some q = rw (lookup-delete id j e.pending, same) at h in cc)
        | inr other ↦ (rw (lookup-delete id j e.pending, other) at h)
      ],
      (refl, λ live. live),
    ),
  );
  same_conn = λ j q h. refl;
  same_next = refl;
}

given_up-Settles :
    (e : Executor) (id : ℕ) (p : Pending)
    → lookup id e.pending ≡ some p
    → Settles e (record e { pending = insert id (record p { abandoned = true }) e.pending })
given_up-Settles e id p found = record {
  kept = λ j q h. elim (Bool-cases (id == j)) [
    | inl same ↦
        let at_j : some (record p { abandoned = true }) ≡ some q =
          rw (lookup-insert id j (record p { abandoned = true }) e.pending, same) at h in
        let now : record p { abandoned = true } ≡ q = cc in
        (
          p,
          (
            ap (λ k. lookup k e.pending) (sym ((==_iff id j).0 same)) ∙ found,
            (
              sym (ap (λ x. x.channel) now),
              λ live. absurd (let no : true ≡ false = ap (λ x. x.abandoned) now ∙ live in cc),
            ),
          ),
        )
    | inr other ↦ (
      q,
      (
        (rw (lookup-insert id j (record p { abandoned = true }) e.pending, other) at h),
        (refl, λ live. live),
      ),
    )
  ];
  same_conn = λ j q h. refl;
  same_next = refl;
}
