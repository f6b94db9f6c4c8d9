-- ===== src/Request/Invariant.antt =====
-- What holds of callers and their requests in every interleaving.
use ferricstore_go.Base.{
  ℕ, ◌≤◌, ◌≡◌, refl, sym, ap, subst, ◌∙◌, List, true, false, Option, none, some, ◌==◌, ==_iff,
  Bool-cases, inl, inr, arith,
}
use ferricstore_go.Base.Dict.{nat_eq, lookup, insert, lookup-insert}
use ferricstore_go.Request.Executor.{Executor, Pending, credit_effects}
use ferricstore_go.Request.Ledger.{IsFair, spent, balance}
use ferricstore_go.Request.Settling.{IsSound}
use ferricstore_go.Request.Settling.Operations.{Settled}
use ferricstore_go.Request.Settling.Leaving.{Forgets}
use ferricstore_go.Request.System.{
  System, Caller, registered, waiting, returned, answer_ledger, request_of, with_executor, moves,
}

-- What a caller's channel has got and is due, by where the caller stands.
abbrev pub Account : ℕ → Option Caller → Type 0
Account n none = n ≡ 0
Account n (some (registered id c)) = n ≡ 1
Account n (some (waiting id c)) = n ≡ 1
Account n (some returned) = n ≤ 1

pub record Inv (s : System) : Type 0 where
  pub sound : IsSound s.executor
  pub account : (t : ℕ) → Account (balance (answer_ledger t) s.executor) (lookup t s.callers)
  pub owner :
      (t id : ℕ) (p : Pending)
      → request_of (lookup t s.callers) ≡ some id
      → lookup id s.executor.pending ≡ some p
      → p.channel ≡ t
  pub active :
      (j : ℕ) (p : Pending)
      → lookup j s.executor.pending ≡ some p
      → p.abandoned ≡ false
      → request_of (lookup p.channel s.callers) ≡ some j
  pub conns :
      (t id c : ℕ) (p : Pending)
      → lookup t s.callers ≡ some (waiting id c)
      → lookup id s.executor.pending ≡ some p
      → s.executor.conn ≡ some c
  pub old_pending :
      (j : ℕ) (p : Pending) → lookup j s.executor.pending ≡ some p → j ≤ s.executor.next_id
  pub old_callers : (t id : ℕ) → request_of (lookup t s.callers) ≡ some id → id ≤ s.executor.next_id

credit_effects-silent :
    (t : ℕ) (credit : Option ℕ) (lane : ℕ)
    → spent (answer_ledger t) (credit_effects credit lane) ≡ 0
credit_effects-silent t none lane = refl
credit_effects-silent t (some f) lane = refl

pub answer_ledger-IsFair : (t : ℕ) → IsFair (answer_ledger t)
answer_ledger-IsFair t = record {
  releasing = λ p. credit_effects-silent t p.flow_credit p.lane_id;
  answering = λ p a. elim (Bool-cases p.abandoned) [
    | inl gone ↦ simp gone refl
    | inr live ↦ simp live (omega arith)
  ];
}

-- A step of the executor alone.
pub with_executor-Inv :
    (s : System) (e : Executor)
    → Inv s
    → Settled s.executor e
    → ((t : ℕ) → balance (answer_ledger t) e ≡ balance (answer_ledger t) s.executor)
    → Inv (with_executor s e)
with_executor-Inv s e i (k, g) same = record {
  sound = g;
  account = λ t. subst (λ n. Account n (lookup t s.callers)) (sym (same t)) (i.account t);
  owner = λ t id q h found.
      let (p, (there, (channel, _))) = k.kept id q found in channel ∙ i.owner t id p h there;
  active = λ j q found live.
      let (p, (there, (channel, still))) = k.kept j q found in
      subst (λ x. request_of (lookup x s.callers) ≡ some j) (sym channel)
        (i.active j p there (still live));
  conns = λ t id c q h found.
      let (p, (there, _)) = k.kept id q found in k.same_conn id q found ∙ i.conns t id c p h there;
  old_pending = λ j q found.
      let (p, (there, _)) = k.kept j q found in omega (arith, i.old_pending j p there, k.same_next);
  old_callers = λ t id h. omega (arith, i.old_callers t id h, k.same_next);
}

pub lookup-insert_other :
    {V : Type 0} (t u : ℕ) (v : V) (m : List (ℕ × V))
    → (t == u) ≡ false
    → lookup u (insert t v m) ≡ lookup u m
lookup-insert_other t u v m h = rw (lookup-insert t u v m, h) refl

pub lookup-insert_same :
    {V : Type 0} (t u : ℕ) (v : V) (m : List (ℕ × V))
    → (t == u) ≡ true
    → lookup u (insert t v m) ≡ some v
lookup-insert_same t u v m h = rw (lookup-insert t u v m, h) refl

-- Whoever waits after another one returned did so before.
still_out :
    (t u : ℕ) (m : List (ℕ × Caller)) {o : Option Caller}
    → lookup u (insert t returned m) ≡ o
    → (o ≡ some returned → ⊥)
    → lookup u m ≡ o
still_out t u m h out = elim (Bool-cases (t == u)) [
  | inl me ↦ absurd (out (sym h ∙ lookup-insert_same t u returned m me))
  | inr other ↦ sym (lookup-insert_other t u returned m other) ∙ h
]

still_requests :
    (t u id : ℕ) (m : List (ℕ × Caller))
    → request_of (lookup u (insert t returned m)) ≡ some id
    → request_of (lookup u m) ≡ some id
still_requests t u id m h = elim (Bool-cases (t == u)) [
  | inl me ↦ absurd (let no : none ≡ some id = rw (lookup-insert_same t u returned m me) at h in cc)
  | inr other ↦ (rw (lookup-insert_other t u returned m other) at h)
]

-- The end of a caller: its request is forgotten, and it has had one answer at most.
pub returned-Inv :
    (s : System) (e : Executor) (t id : ℕ)
    → Inv s
    → request_of (lookup t s.callers) ≡ some id
    → Settled s.executor e
    → Forgets e id
    → balance (answer_ledger t) e ≤ 1
    → ((u : ℕ)
        → (t == u) ≡ false
        → balance (answer_ledger u) e ≡ balance (answer_ledger u) s.executor)
    → Inv (moves s e t returned)
returned-Inv s e t id i mine (k, g) forgets once same = record {
  sound = g;
  account = λ u. elim (Bool-cases (t == u)) [
    | inl me ↦
        rw (lookup-insert_same t u returned s.callers me)
          (subst (λ x. balance (answer_ledger x) e ≤ 1) ((==_iff t u).0 me) once)
    | inr other ↦
        rw (lookup-insert_other t u returned s.callers other)
          (subst (λ n. Account n (lookup u s.callers)) (sym (same u other)) (i.account u))
  ];
  owner = λ u j q h found.
      let (p, (there, (channel, _))) = k.kept j q found in
      channel ∙ i.owner u j p (still_requests t u j s.callers h) there;
  active = λ j q found live.
      let (p, (there, (channel, still))) = k.kept j q found in
      let before : request_of (lookup p.channel s.callers) ≡ some j =
        i.active j p there (still live) in
      subst (λ x. request_of (lookup x (insert t returned s.callers)) ≡ some j) (sym channel)
        (elim (Bool-cases (t == p.channel)) [
          | inl me ↦
              let at_id : some id ≡ some j =
                sym mine
                ∙ (ap (λ x. request_of (lookup x s.callers)) ((==_iff t p.channel).0 me)
                    ∙ before) in
              let same_id : id ≡ j = cc in
              let gone : q.abandoned ≡ true =
                forgets q (ap (λ x. lookup x e.pending) same_id ∙ found) in
              absurd (let no : true ≡ false = sym gone ∙ live in cc)
          | inr other ↦ rw (lookup-insert_other t p.channel returned s.callers other) before
        ]);
  conns = λ u j c q h found.
      let (p, (there, _)) = k.kept j q found in
      k.same_conn j q found ∙ i.conns u j c p (still_out t u s.callers h (λ bad. cc)) there;
  old_pending = λ j q found.
      let (p, (there, _)) = k.kept j q found in omega (arith, i.old_pending j p there, k.same_next);
  old_callers =
      λ u j h. omega (arith, i.old_callers u j (still_requests t u j s.callers h), k.same_next);
}

-- The write is behind the check of the connection.
pub writes-Inv :
    (s : System) (t id c : ℕ)
    → Inv s
    → lookup t s.callers ≡ some (registered id c)
    → s.executor.conn ≡ some c
    → Inv (moves s s.executor t (waiting id c))
writes-Inv s t id c i mine here = record {
  sound = i.sound;
  account = λ u. elim (Bool-cases (t == u)) [
    | inl me ↦
        rw (lookup-insert_same t u (waiting id c) s.callers me)
          (rw (ap (λ x. lookup x s.callers) (sym ((==_iff t u).0 me)), mine) at (i.account u))
    | inr other ↦ rw (lookup-insert_other t u (waiting id c) s.callers other) (i.account u)
  ];
  owner = λ u j p h found. i.owner u j p (sym (requests u) ∙ h) found;
  active = λ j p found live. requests p.channel ∙ i.active j p found live;
  conns = λ u j d p h found. elim (Bool-cases (t == u)) [
    | inl me ↦
        let at_t : some (waiting id c) ≡ some (waiting j d) =
          sym (lookup-insert_same t u (waiting id c) s.callers me) ∙ h in
        here ∙ (let same : c ≡ d = cc in ap some same)
    | inr other ↦
        i.conns u j d p (sym (lookup-insert_other t u (waiting id c) s.callers other) ∙ h) found
  ];
  old_pending = i.old_pending;
  old_callers = λ u j h. i.old_callers u j (sym (requests u) ∙ h);
}
  where
    requests :
        (u : ℕ)
        → request_of (lookup u (insert t (waiting id c) s.callers))
          ≡ request_of (lookup u s.callers)
    requests u = elim (Bool-cases (t == u)) [
      | inl me ↦
          rw
            (
              lookup-insert_same t u (waiting id c) s.callers me,
              ap (λ x. lookup x s.callers) (sym ((==_iff t u).0 me)),
              mine,
            )
            refl
      | inr other ↦ rw (lookup-insert_other t u (waiting id c) s.callers other) refl
    ]
