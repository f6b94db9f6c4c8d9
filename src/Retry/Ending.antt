-- ===== src/Retry/Ending.antt =====
-- The loop ends: the budget of attempts, and what a request that is never replayed gets.
use ferricstore_go.Base.{
  ℕ, suc, ◌+◌, ◌-◌, ◌≤◌, ◌<◌, ◌≡◌, refl, List, [], ◌∷◌, length, Bool, some, Result, Result-cases,
  ok, err, if◌then◌else◌, Option-cases, inl, inr, arith,
}
use ferricstore_go.Base.Bytes.{Bytes}
use ferricstore_go.Retry.Errors.{GoError, chain_has, is_go_away_error}
use ferricstore_go.Retry.Loop.{
  ReplayPolicy, Attempt, request_once, Round, Run, again, Verdict, after_go_away, after_busy,
  after_transport, returns, verdict, retry_loop, follow,
}
use ferricstore_go.Retry.Safety.{Grounds, verdict-Grounds}

abbrev pub drained : {V : Type 0} → Result (GoError × Bool) V → ℕ
drained (ok v) = 0
drained (err (e, b)) = if chain_has is_go_away_error e then 1 else 0

-- The attempts that GOAWAY turned away before they were written.
abbrev pub drains : {V : Type 0} → List (Round V) → ℕ
drains [] = 0
drains (r ∷ rs) = drained (request_once (r.attempt)) + drains rs

module _ (equal_fold : Bytes → Bytes → Bool) {V : Type 0} (policy : ReplayPolicy)
    (max_retries : ℕ) where
  -- A run of at most so many attempts again, with a result where there are more rounds.
  abbrev Within : ℕ → ℕ → Run V → Type 0
  Within budget rounds (result, retried) =
      (length retried ≤ budget) × (budget < rounds → (x : Result GoError V) × (result ≡ some x))

  again-Within :
      (a : Attempt V) (budget budget' rounds : ℕ) (x : Run V)
      → Within budget rounds x
      → budget + 1 ≤ budget'
      → Within budget' (suc rounds) (again a x)
  again-Within a budget budget' rounds (result, retried) (few, found) less =
      (omega (arith, few), λ more. found (omega arith))

  follow-Within :
      (transports servers rounds left : ℕ) (a : Attempt V) (e : GoError) (b : Bool) (v : Verdict)
      (x y z : Run V)
      → Grounds equal_fold policy max_retries transports servers e b v
      → Within (left + (1 - servers) + (max_retries - transports)) rounds x
      → (servers < 1 → Within (left + (1 - suc servers) + (max_retries - transports)) rounds y)
      → (transports < max_retries
          → Within (left + (1 - servers) + (max_retries - suc transports)) rounds z)
      → Within
          ((if chain_has is_go_away_error e then 1 else 0)
            + left
            + (1 - servers)
            + (max_retries - transports))
          (suc rounds)
          (follow a v x y z)
  follow-Within transports servers rounds left a e b after_go_away x y z (_, gone) hx hy hz =
      rw gone (again-Within a _ _ rounds x hx (omega arith))
  follow-Within transports servers rounds left a e b after_busy x y z (_, (_, (_, few))) hx hy hz =
      again-Within a _ _ rounds y (hy few) (omega (arith, few))
  follow-Within transports servers rounds left a e b after_transport x y z (_, (_, few)) hx hy hz =
      again-Within a _ _ rounds z (hz few) (omega (arith, few))
  follow-Within transports servers rounds left a e b (returns why) x y z g hx hy hz =
      (omega arith, λ more. (err why, refl))

  retry_loop-Within :
      (transports servers : ℕ) (rs : List (Round V))
      → Within
          (drains rs + (1 - servers) + (max_retries - transports))
          (length rs)
          (retry_loop equal_fold policy max_retries transports servers rs)
  unfolding retry_loop
  retry_loop-Within transports servers [] = (omega arith, λ more. absurd (omega arith))
  retry_loop-Within transports servers (r ∷ rs) = elim (Option-cases r.context) [
    | inr (e, late) ↦ rw (retry_loop, late) (omega arith, λ more. (err e, refl))
    | inl live ↦ elim (Result-cases (request_once r.attempt)) [
      | inl (v, done) ↦ rw (retry_loop, live, done) (omega arith, λ more. (ok v, refl))
      | inr ((e, b), failed) ↦
          rw (retry_loop, live, failed)
            (follow-Within transports servers (length rs) (drains rs) r.attempt e b
              (verdict equal_fold policy max_retries transports servers r e b)
              (retry_loop equal_fold policy max_retries transports servers rs)
              (retry_loop equal_fold policy max_retries transports (suc servers) rs)
              (retry_loop equal_fold policy max_retries (suc transports) servers rs)
              (verdict-Grounds equal_fold policy max_retries transports servers r e b)
              (retry_loop-Within transports servers rs)
              (λ few. retry_loop-Within transports (suc servers) rs)
              (λ few. retry_loop-Within (suc transports) servers rs))
    ]
  ]

  -- Where more rounds are given than GOAWAY turned attempts away and one retry for BUSY and the configured
  -- ones for the transport, the loop returns, and it sent the request again no more often than that.
  pub retry_loop-ends :
      (rs : List (Round V))
      → drains rs + 1 + max_retries < length rs
      → ((x : Result GoError V) × ((retry_loop equal_fold policy max_retries 0 0 rs).0 ≡ some x))
        × (length (retry_loop equal_fold policy max_retries 0 0 rs).1 ≤ drains rs + 1 + max_retries)
  retry_loop-ends rs enough =
      let (few, found) = retry_loop-Within 0 0 rs in (found (omega arith), omega (arith, few))
