-- ===== src/Request/Closing.antt =====
-- The calls that close the executor keep every ledger: what was pending is paid.
use ferricstore_go.Base.{◌-◌, ◌≡◌, refl, true, false, ◌||◌, not, ◌==◌, Bool-cases, inl, inr}
use ferricstore_go.Base.Dict.{nat_eq}
use ferricstore_go.Request.Executor.{
  Executor, RequestError, net_closed, close_unless_retiring, end_request, retire, close,
  mark_closed,
}
use ferricstore_go.Request.Ledger.{Ledger, IsFair, balance, close_and_fail-balance}

module _ (l : Ledger) (fair : IsFair l) where
  pub end_request-balance : (e : Executor) → balance l (end_request e) ≡ balance l e
  unfolding end_request mark_closed
  end_request-balance e =
      elim (Bool-cases (not (e.active_requests - 1 == 0) || (not e.retiring || e.is_closed))) [
        | inl stays ↦ simp (end_request, stays) refl
        | inr last ↦
            simp (end_request, last)
              (close_and_fail-balance l fair
                (mark_closed (record e { active_requests = e.active_requests - 1 })) net_closed)
      ]

  pub retire-balance : (e : Executor) → balance l (retire e) ≡ balance l e
  unfolding retire mark_closed
  retire-balance e = elim (Bool-cases (e.is_closed || e.retiring)) [
    | inl out ↦ simp (retire, out) refl
    | inr running ↦ elim (Bool-cases (e.active_requests == 0)) [
      | inl idle ↦
          simp (retire, running, idle)
            (close_and_fail-balance l fair
              (mark_closed (record e { retiring = true; heartbeat = false })) net_closed)
      | inr busy ↦ simp (retire, running, busy) refl
    ]
  ]

  pub close-balance : (e : Executor) → balance l (close e) ≡ balance l e
  unfolding close mark_closed
  close-balance e = elim (Bool-cases e.is_closed) [
    | inl shut ↦ simp (close, shut) refl
    | inr running ↦ simp (close, running) (close_and_fail-balance l fair (mark_closed e) net_closed)
  ]

  pub close_unless_retiring-balance :
      (e : Executor) (why : RequestError) → balance l (close_unless_retiring e why) ≡ balance l e
  unfolding close_unless_retiring
  close_unless_retiring-balance e why = elim (Bool-cases (e.retiring || e.is_closed)) [
    | inl out ↦ simp (close_unless_retiring, out) refl
    | inr running ↦ simp (close_unless_retiring, running) (close_and_fail-balance l fair e why)
  ]
