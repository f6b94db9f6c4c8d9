-- ===== src/Request/Registering.antt =====
-- A caller that registers keeps what holds of callers and their requests.
use ferricstore_go.Base.{
  ℕ, ◌+◌, ◌<◌, ◌≡◌, ◌⊎◌, refl, sym, ap, subst, ◌∙◌, List, [], ◌∷◌, true, false, Option, none, some,
  ◌==◌, ==_iff, Bool-cases, Option-cases, inl, inr, arith,
}
use ferricstore_go.Base.Dict.{nat_eq, lookup, insert, insert-Unique, total, total-insert}
use ferricstore_go.Frame.Response.{DecodeMode}
use ferricstore_go.Request.Executor.{Pending, has_live_pending}
use ferricstore_go.Request.Identifiers.{add_pending}
use ferricstore_go.Request.Ledger.{balance}
use ferricstore_go.Request.System.{
  System, registered, waiting, answer_ledger, due_answer, request_of, moves, new_pending,
}
use ferricstore_go.Request.Invariant.{Inv, Account, lookup-insert_other, lookup-insert_same}

has_live-insert :
    (id : ℕ) (p : Pending) (m : List (ℕ × Pending))
    → p.abandoned ≡ false
    → has_live_pending (insert id p m) ≡ true
unfolding has_live_pending insert
has_live-insert id p [] live = ground (arith, live)
has_live-insert id p ((j, q) ∷ m) live = ground (arith, live, has_live-insert id p m live)

-- The identifier is new: no request that is pending and no caller has it.
pub registers-Inv :
    (s : System) (t opcode lane : ℕ) (mode : DecodeMode) (credit : Option ℕ) (c id : ℕ)
    → Inv s
    → lookup t s.callers ≡ none
    → s.executor.next_id < id
    → Inv (
        moves s
          (add_pending s.executor id (new_pending t opcode lane mode credit))
          t
          (registered id c))
unfolding add_pending
registers-Inv s t opcode lane mode credit c id i absent fresh = record {
  sound = record {
    unique = insert-Unique id entry s.executor.pending i.sound.unique;
    draining_conn = i.sound.draining_conn;
    draining_live = λ h. has_live-insert id entry s.executor.pending refl;
  };
  account = λ u. elim (caller_at u) [
    | inl (me, now) ↦
        let before : balance (answer_ledger u) s.executor ≡ 0 =
          (rw (ap (λ x. lookup x s.callers) (sym ((==_iff t u).0 me)), absent) at (i.account u)) in
        rw now (omega (arith, before, due_me u me, grown u))
    | inr (other, as_before) ↦ rw as_before (
        subst (λ n. Account n (lookup u s.callers)) (omega (arith, due_other u other, grown u))
          (i.account u))
  ];
  owner = λ u j p h found. elim (entry_at j p found) [
    | inl (at_id, new) ↦ elim (caller_at u) [
      | inl (me, now) ↦ ap (λ x. x.channel) new ∙ (==_iff t u).0 me
      | inr (other, as_before) ↦
          absurd
            (omega (arith, at_id, fresh, i.old_callers u j (ap request_of (sym as_before) ∙ h)))
    ]
    | inr (apart, old) ↦ elim (caller_at u) [
      | inl (me, now) ↦
          let at_id : some id ≡ some j = ap request_of (sym now) ∙ h in
          absurd (let same : id ≡ j = cc in ground (arith, same, apart))
      | inr (other, as_before) ↦ i.owner u j p (ap request_of (sym as_before) ∙ h) old
    ]
  ];
  active = λ j p found live. elim (entry_at j p found) [
    | inl (at_id, new) ↦ elim (caller_at p.channel) [
      | inl (me, now) ↦ ap request_of now ∙ ap some (sym at_id)
      | inr (other, as_before) ↦ absurd (ground (arith, other, ap (λ x. x.channel) new))
    ]
    | inr (apart, old) ↦ elim (caller_at p.channel) [
      | inl (me, now) ↦
          let mine : none ≡ some j =
            ap request_of (sym absent ∙ ap (λ x. lookup x s.callers) ((==_iff t p.channel).0 me))
            ∙ i.active j p old live in
          absurd cc
      | inr (other, as_before) ↦ ap request_of as_before ∙ i.active j p old live
    ]
  ];
  conns = λ u j d p h found. elim (caller_at u) [
    | inl (me, now) ↦
        absurd (let no : some (registered id c) ≡ some (waiting j d) = sym now ∙ h in cc)
    | inr (other, as_before) ↦
        let waits : lookup u s.callers ≡ some (waiting j d) = sym as_before ∙ h in
        elim (entry_at j p found) [
          | inl (at_id, new) ↦
              absurd (omega (arith, at_id, fresh, i.old_callers u j (ap request_of waits)))
          | inr (apart, old) ↦ i.conns u j d p waits old
        ]
  ];
  old_pending = λ j p found. elim (entry_at j p found) [
    | inl (at_id, new) ↦ omega (arith, at_id)
    | inr (apart, old) ↦ omega (arith, i.old_pending j p old)
  ];
  old_callers = λ u j h. elim (caller_at u) [
    | inl (me, now) ↦
        let at_id : some id ≡ some j = ap request_of (sym now) ∙ h in
        (let same : id ≡ j = cc in omega (arith, same))
    | inr (other, as_before) ↦ omega (arith, i.old_callers u j (ap request_of (sym as_before) ∙ h))
  ];
}
  where
    entry : Pending
    entry = new_pending t opcode lane mode credit

    unused : lookup id s.executor.pending ≡ none
    unused = elim (Option-cases (lookup id s.executor.pending)) [
      | inl missing ↦ missing
      | inr (p, found) ↦ absurd (omega (arith, i.old_pending id p found))
    ]

    caller_at :
        (u : ℕ)
        → ((t == u) ≡ true)
            × (lookup u (insert t (registered id c) s.callers) ≡ some (registered id c))
          ⊎ ((t == u) ≡ false)
            × (lookup u (insert t (registered id c) s.callers) ≡ lookup u s.callers)
    caller_at u = elim (Bool-cases (t == u)) [
      | inl me ↦ inl (me, lookup-insert_same t u (registered id c) s.callers me)
      | inr other ↦ inr (other, lookup-insert_other t u (registered id c) s.callers other)
    ]

    entry_at :
        (j : ℕ) (p : Pending)
        → lookup j (insert id entry s.executor.pending) ≡ some p
        → (j ≡ id) × (p ≡ entry) ⊎ ((id == j) ≡ false) × (lookup j s.executor.pending ≡ some p)
    entry_at j p h = elim (Bool-cases (id == j)) [
      | inl me ↦
          let at_id : some entry ≡ some p =
            sym (lookup-insert_same id j entry s.executor.pending me) ∙ h in
          inl (sym ((==_iff id j).0 me), cc)
      | inr other ↦ inr (other, sym (lookup-insert_other id j entry s.executor.pending other) ∙ h)
    ]

    grown :
        (u : ℕ)
        → total (due_answer u) (insert id entry s.executor.pending)
          ≡ total (due_answer u) s.executor.pending + due_answer u entry
    grown u =
        omega (arith, (rw unused at (total-insert (due_answer u) id entry s.executor.pending)))

    due_me : (u : ℕ) → (t == u) ≡ true → due_answer u entry ≡ 1
    due_me u me = rw me refl

    due_other : (u : ℕ) → (t == u) ≡ false → due_answer u entry ≡ 0
    due_other u other = rw other refl
