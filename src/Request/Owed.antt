-- ===== src/Request/Owed.antt =====
-- The only request that owes a caller an answer is the caller's own.
use ferricstore_go.Base.{
  ℕ, ◌≡◌, refl, sym, ap, ◌∙◌, List, [], ◌∷◌, true, false, none, some, ◌==◌, ==_iff, Bool-cases, inl,
  inr, arith,
}
use ferricstore_go.Base.Dict.{nat_eq, lookup, total, weight_at}
use ferricstore_go.Request.Executor.{Pending}
use ferricstore_go.Request.Ledger.{owed}
use ferricstore_go.Request.System.{System, answer_ledger, due_answer, request_of}
use ferricstore_go.Request.Invariant.{Inv}
use ferricstore_go.Base.Dict.{total-delete, delete, delete-Unique, lookup-delete, Unique}

-- Sums over the entries of a map that all weigh nothing, but for the one under a key.
total-zero :
    (w : Pending → ℕ) (m : List (ℕ × Pending))
    → Unique m
    → ((j : ℕ) (p : Pending) → lookup j m ≡ some p → w p ≡ 0)
    → total w m ≡ 0
unfolding lookup
total-zero w [] u light = refl
total-zero w ((j, p) ∷ m) (new, u) light =
    let first : lookup j ((j, p) ∷ m) ≡ some p = rw (refl_test j) refl in
    omega (
      arith,
      light j p first,
      total-zero w m u (λ k q found. elim (Bool-cases (j == k)) [
        | inl same ↦ absurd (
            let no : none ≡ some q =
              sym new ∙ (ap (λ x. lookup x m) ((==_iff j k).0 same) ∙ found) in
            cc)
        | inr other ↦ light k q (rw other found)
      ]),
    )
  where
    refl_test : (x : ℕ) → (x == x) ≡ true
    refl_test x = ground arith

owed-one :
    (t id : ℕ) (m : List (ℕ × Pending))
    → Unique m
    → ((j : ℕ) (p : Pending) → lookup j m ≡ some p → (id == j) ≡ false → due_answer t p ≡ 0)
    → total (due_answer t) m ≡ weight_at (due_answer t) (lookup id m)
owed-one t id m u others = omega (
  arith,
  total-delete (due_answer t) id m u,
  total-zero (due_answer t) (delete id m) (delete-Unique id m u) (λ j p found.
      elim (Bool-cases (id == j)) [
        | inl same ↦
            absurd (let no : none ≡ some p = rw (lookup-delete id j m, same) at found in cc)
        | inr other ↦ others j p (rw (lookup-delete id j m, other) at found) other
      ]),
)

-- The only request that owes a caller an answer is the caller's own.
pub owed-own :
    (s : System) (t id : ℕ)
    → Inv s
    → request_of (lookup t s.callers) ≡ some id
    → owed (answer_ledger t) s.executor ≡ weight_at (due_answer t) (lookup id s.executor.pending)
owed-own s t id i mine = owed-one t id s.executor.pending i.sound.unique (λ j p found other.
    elim (Bool-cases p.abandoned) [
      | inl gone ↦ rw gone refl
      | inr live ↦ elim (Bool-cases (p.channel == t)) [
        | inr apart ↦ rw (live, apart) refl
        | inl me ↦
            let at_id : some j ≡ some id =
              sym (i.active j p found live)
              ∙ (ap (λ x. request_of (lookup x s.callers)) ((==_iff p.channel t).0 me) ∙ mine) in
            let same : j ≡ id = cc in absurd (ground (arith, same, other))
      ]
    ])
