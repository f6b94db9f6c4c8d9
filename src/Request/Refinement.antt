-- ===== src/Request/Refinement.antt =====
-- The refinement of the executor by what one caller sees of its request: it is opened, then answered or given
-- up, once and in this order.
use ferricstore_go.Base.{
  ℕ, ◌≤◌, ◌≡◌, refl, sym, subst, ◌∙◌, List, false, Option, none, some, ◌==◌, ==_iff, if◌then◌else◌,
  Bool-cases, Option-cases, inl, inr,
}
use ferricstore_go.Base.Dict.{nat_eq, lookup, insert}
use ferricstore_go.Request.Executor.{Executor, Pending}
use ferricstore_go.Request.Settling.{Settles}
use ferricstore_go.Request.Settling.Operations.{Settled}
use ferricstore_go.Request.System.{
  System, Caller, registered, waiting, returned, request_of, with_executor, moves,
}
use ferricstore_go.Request.Invariant.{lookup-insert_other, lookup-insert_same}

pub data Phase : Type 0 where
  unborn open_request settled_request left : Phase

-- The abstract machine of one request.
pub data Life : Phase → Phase → Type 0 where
  stays : (p : Phase) → Life p p
  opens : Life unborn open_request
  settles : Life open_request settled_request
  gives_up : Life open_request left
  leaves : Life settled_request left

abbrev pub phase_of_entry : Option Pending → Phase
phase_of_entry none = settled_request
phase_of_entry (some p) = if p.abandoned then settled_request else open_request

abbrev pub phase_of : Option Caller → List (ℕ × Pending) → Phase
phase_of none m = unborn
phase_of (some (registered id c)) m = phase_of_entry (lookup id m)
phase_of (some (waiting id c)) m = phase_of_entry (lookup id m)
phase_of (some returned) m = left

-- What a caller's request is in a state of the executor.
abbrev pub view : System → ℕ → Phase
view s t = phase_of (lookup t s.callers) s.executor.pending

-- The answers that a phase comes with.
abbrev pub Answers : Phase → ℕ → Type 0
Answers unborn n = n ≡ 0
Answers open_request n = n ≡ 0
Answers settled_request n = n ≡ 1
Answers left n = n ≤ 1

-- Entries only go.
pub Loses : List (ℕ × Pending) → List (ℕ × Pending) → ℕ → Type 0
Loses m m' id =
    (q : Pending)
    → lookup id m' ≡ some q
    → (p : Pending) × ((lookup id m ≡ some p) × (q.abandoned ≡ false → p.abandoned ≡ false))

entry-Life :
    (m m' : List (ℕ × Pending)) (id : ℕ)
    → Loses m m' id
    → Life (phase_of_entry (lookup id m)) (phase_of_entry (lookup id m'))
unfolding Loses
entry-Life m m' id loses = elim (Option-cases (lookup id m')) [
  | inl gone ↦ rw gone (to_settled (lookup id m))
  | inr (q, found) ↦ elim (Bool-cases q.abandoned) [
    | inl given_up ↦ rw (found, given_up) (to_settled (lookup id m))
    | inr live ↦
        let (p, (there, still)) = loses q found in
        rw (found, live, there, still live) (stays open_request)
  ]
]
  where
    to_settled : (o : Option Pending) → Life (phase_of_entry o) settled_request
    to_settled none = stays settled_request
    to_settled (some p) = elim (Bool-cases p.abandoned) [
      | inl gone ↦ rw gone (stays settled_request)
      | inr live ↦ rw live settles
    ]

pub phase-Life :
    (o : Option Caller) (m m' : List (ℕ × Pending))
    → ((id : ℕ) → request_of o ≡ some id → Loses m m' id)
    → Life (phase_of o m) (phase_of o m')
phase-Life none m m' loses = stays unborn
phase-Life (some (registered id c)) m m' loses = entry-Life m m' id (loses id refl)
phase-Life (some (waiting id c)) m m' loses = entry-Life m m' id (loses id refl)
phase-Life (some returned) m m' loses = stays left

Settles-Loses : (e e' : Executor) (id : ℕ) → Settles e e' → Loses e.pending e'.pending id
unfolding Loses
Settles-Loses e e' id k q found =
    let (p, (there, (_, still))) = k.kept id q found in (p, (there, still))

leaving_entry : (o : Option Pending) → Life (phase_of_entry o) left
leaving_entry none = leaves
leaving_entry (some p) = elim (Bool-cases p.abandoned) [
  | inl gone ↦ rw gone leaves
  | inr live ↦ rw live gives_up
]

leaving :
    (o : Option Caller) (id : ℕ) (m : List (ℕ × Pending))
    → request_of o ≡ some id
    → Life (phase_of o m) left
leaving none id m h = absurd cc
leaving (some (registered j c)) id m h = leaving_entry (lookup j m)
leaving (some (waiting j c)) id m h = leaving_entry (lookup j m)
leaving (some returned) id m h = absurd cc

-- A step of the executor alone, or of another caller.
pub executor-Life :
    (s : System) (e : Executor) (t : ℕ)
    → Settled s.executor e
    → Life (view s t) (view (with_executor s e) t)
executor-Life s e t (k, g) =
    phase-Life (lookup t s.callers) s.executor.pending e.pending
      (λ id mine. Settles-Loses s.executor e id k)

pub returned-Life :
    (s : System) (e : Executor) (t id u : ℕ)
    → request_of (lookup t s.callers) ≡ some id
    → Settled s.executor e
    → Life (view s u) (view (moves s e t returned) u)
returned-Life s e t id u mine (k, g) = elim (Bool-cases (t == u)) [
  | inl me ↦ rw (lookup-insert_same t u returned s.callers me) (
      leaving (lookup u s.callers) id s.executor.pending
        (subst (λ x. request_of (lookup x s.callers) ≡ some id) ((==_iff t u).0 me) mine))
  | inr other ↦ rw (lookup-insert_other t u returned s.callers other) (executor-Life s e u (k, g))
]

pub kept_entry :
    (id j : ℕ) (entry : Pending) (m : List (ℕ × Pending))
    → (id == j) ≡ false
    → Loses m (insert id entry m) j
unfolding Loses
kept_entry id j entry m apart q found =
    (q, (sym (lookup-insert_other id j entry m apart) ∙ found, λ live. live))
