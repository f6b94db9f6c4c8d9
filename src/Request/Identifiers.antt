-- ===== src/Request/Identifiers.antt =====
-- The identifier of a new request, `nextRequestIDLocked` and `addPendingRequest` of native_request.go.
use ferricstore_go.Base.{
  ℕ, zero, suc, ◌+◌, ◌%◌, ◌≤◌, ◌<◌, ◌≡◌, refl, sym, List, [], ◌∷◌, length, true, false, Bool-cases,
  Option-cases, inl, inr, Option, none, some, ◌==◌, if◌then◌else◌, arith, ◌≢◌, ◌⊎◌, ◌∙◌,
}
use ferricstore_go.Base.Dict.{nat_eq, lookup, insert}
use ferricstore_go.Flow.Controller.{remove_from}
use ferricstore_go.Flow.Invariant.{count, same, count-remove_from}
use ferricstore_go.Flow.Ending.{length-remove_from}
use ferricstore_go.Request.Executor.{Executor, Pending}

-- `math.MaxUint64 + 1`
abbrev pub word : ℕ
word = 0x10000000000000000

-- The loop, as many times as the fuel says: the counter goes on by one, and skips 0 and what is pending.
unfoldable pub next_request_id : ℕ → List (ℕ × Pending) → ℕ → Option ℕ
next_request_id zero pending next = none
next_request_id (suc fuel) pending next =
    let id = (next + 1) % word in
    let later = next_request_id fuel pending id in
    if id == 0 then later else (elim (lookup id pending) [ none ↦ some id | some p ↦ later ])

-- `addPendingRequest` with the identifier that the loop found.
unfoldable pub add_pending : Executor → ℕ → Pending → Executor
add_pending e id p = record e { next_id = id; pending = insert id p e.pending }

-- The identifiers that the loop passes over.
abbrev Skips : List (ℕ × Pending) → List ℕ → ℕ → ℕ → Type 0
Skips pending keys fuel next =
    (i : ℕ)
    → 1 ≤ i
    → i ≤ fuel
    → (((next + i) % word == 0) ≡ true) ⊎ (lookup ((next + i) % word) pending ≢ none)
    → 1 ≤ count ((next + i) % word) keys

further : (next i : ℕ) → ((next + 1) % word + i) % word ≡ (next + (i + 1)) % word
further next i = omega arith

apart :
    (next i : ℕ)
    → 1 ≤ i
    → i < word
    → ((((next + 1) % word + i) % word) == ((next + 1) % word)) ≡ false
apart next i lo hi = ground arith

passes :
    (pending : List (ℕ × Pending)) (keys : List ℕ) (fuel next : ℕ)
    → suc fuel ≤ word
    → 1 ≤ count ((next + 1) % word) keys
    → Skips pending keys (suc fuel) next
    → Skips pending (remove_from ((next + 1) % word) keys) fuel ((next + 1) % word)
passes pending keys fuel next small first skips i lo hi busy =
    let x : ℕ = ((next + 1) % word + i) % word in
    let counted : 1 ≤ count x keys =
      rw (further next i)
        (skips (i + 1) (omega arith) (omega arith) (rw (further next i) at busy)) in
    let other : same x ((next + 1) % word) ≡ 0 = rw (apart next i lo (omega arith)) refl in
    omega (arith, counted, other, count-remove_from x ((next + 1) % word) keys first)

-- The identifier is not pending and not 0.
abbrev pub IsFree : List (ℕ × Pending) → ℕ → Type 0
IsFree pending id = (id ≢ 0) × ((id < word) × (lookup id pending ≡ none))

finds :
    (fuel next : ℕ) (pending : List (ℕ × Pending)) (keys : List ℕ)
    → Skips pending keys fuel next
    → length keys < fuel
    → fuel ≤ word
    → (id : ℕ) × ((next_request_id fuel pending next ≡ some id) × IsFree pending id)
unfolding next_request_id
finds zero next pending keys skips room small = absurd (omega arith)
finds (suc fuel) next pending keys skips room small =
    let on : 1 ≤ count ((next + 1) % word) keys
        → (id : ℕ) × ((next_request_id fuel pending ((next + 1) % word) ≡ some id)
            × IsFree pending id) =
      λ first.
        finds fuel ((next + 1) % word) pending (remove_from ((next + 1) % word) keys)
          (passes pending keys fuel next small first skips)
          (omega (arith, length-remove_from ((next + 1) % word) keys first)) (omega arith) in
    elim (Bool-cases ((next + 1) % word == 0)) [
      | inl skip ↦ rw (next_request_id, skip) (on (skips 1 (omega arith) (omega arith) (inl skip)))
      | inr nonzero ↦ elim (Option-cases (lookup ((next + 1) % word) pending)) [
        | inl unused ↦
            rw (next_request_id, nonzero, unused)
              ((next + 1) % word, (refl, (ground (arith, nonzero), (omega arith, unused))))
        | inr (p, used) ↦
            rw (next_request_id, nonzero, used)
              (on (
                skips 1 (omega arith) (omega arith)
                  (inr (λ h. absurd (let no : some p ≡ none = sym used ∙ h in cc)))))
      ]
    ]

keys_of : List (ℕ × Pending) → List ℕ
keys_of [] = []
keys_of ((id, p) ∷ m) = id ∷ keys_of m

length-keys_of : (m : List (ℕ × Pending)) → length (keys_of m) ≡ length m
unfolding keys_of
length-keys_of [] = refl
length-keys_of ((id, p) ∷ m) = omega (arith, length-keys_of m)

count-keys_of : (id : ℕ) (m : List (ℕ × Pending)) → lookup id m ≢ none → 1 ≤ count id (keys_of m)
unfolding keys_of lookup
count-keys_of id [] h = absurd (h refl)
count-keys_of id ((j, p) ∷ m) h = elim (Bool-cases (j == id)) [
  | inl here ↦ ground (arith, here)
  | inr on ↦ omega (arith, count-keys_of id m (rw on at h))
]

-- While fewer than 2^64 - 1 requests are pending, the loop ends after at most two rounds more than
-- requests are pending, with an identifier that is not 0 and not pending.
pub next_request_id-finds :
    (next : ℕ) (pending : List (ℕ × Pending))
    → length pending + 2 ≤ word
    → (id : ℕ) × ((next_request_id (length pending + 2) pending next ≡ some id) × IsFree pending id)
next_request_id-finds next pending small =
    finds (length pending + 2) next pending (0 ∷ keys_of pending)
      (λ i lo hi busy. elim busy [
        | inl zero_id ↦ ground (arith, zero_id)
        | inr used ↦ omega (arith, count-keys_of ((next + i) % word) pending used)
      ])
      (omega (arith, length-keys_of pending)) small
