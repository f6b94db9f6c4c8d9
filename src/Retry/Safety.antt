-- ===== src/Retry/Safety.antt =====
-- Behind which attempts a request is sent again, and how often.
use ferricstore_go.Base.{
  ℕ, ◌<◌, ◌≡◌, Bool, true, false, ◌&&◌, ◌||◌, not, none, ltb, leb, Bool-cases, Option-cases, inl,
  inr, arith,
}
use ferricstore_go.Base.Bytes.{Bytes, codes}
use ferricstore_go.Retry.Errors.{
  GoError, NativeError, chain_has, is_go_away_error, native_error_value, Disposition,
  server_retry_disposition, disposition_of, safe_to_retry, native_error_has_kind, status_busy,
  status_reroute,
}
use ferricstore_go.Retry.Loop.{
  ReplayPolicy, replays, Attempt, done_before, not_connected, no_credit, refused, failed_answer,
  rejected, gave_up, Round, Verdict, after_go_away, after_busy, after_transport, returns, verdict,
  max_server_retries,
}

-- An error of the client itself: neither GOAWAY nor an answer of the server.
abbrev pub IsLocal : GoError → Type 0
IsLocal e = (chain_has is_go_away_error e ≡ false) × (native_error_value e ≡ none)

-- What the code sends on a response channel and reads from a context are local errors.
abbrev pub IsPlain : {V : Type 0} → Attempt V → Type 0
IsPlain (done_before e) = IsLocal e
IsPlain (failed_answer e) = IsLocal e
IsPlain (gave_up e) = IsLocal e
IsPlain _ = Unit {0}

module _ (equal_fold : Bytes → Bytes → Bool) where
  -- Nothing of the request was written, or the server answered BUSY and said twice that it may come again.
  abbrev pub Replayable : {V : Type 0} → Attempt V → Type 0
  Replayable (not_connected e reconnectable) = Unit {0}
  Replayable (no_credit e) = Unit {0}
  Replayable (refused e) = Unit {0}
  Replayable (rejected n) =
      ((disposition_of equal_fold n).busy ≡ true) × (safe_to_retry equal_fold n ≡ true)
  Replayable _ = ⊥

  pub retryable-safe :
      (n : NativeError)
      → (disposition_of equal_fold n).retryable ≡ true
      → safe_to_retry equal_fold n ≡ true
  unfolding disposition_of
  retryable-safe n h =
      elim (Bool-cases (
        native_error_has_kind equal_fold n status_busy (codes "busy")
        || native_error_has_kind equal_fold n status_reroute (codes "reroute"))) [
          | inl kind ↦ (rw (disposition_of, kind) at h)
          | inr other ↦ absurd (let no : false ≡ true = rw (disposition_of, other) at h in cc)
        ]

  module _ (policy : ReplayPolicy) (max_retries : ℕ) where
    -- The reasons for another round.
    abbrev pub Grounds : ℕ → ℕ → GoError → Bool → Verdict → Type 0
    Grounds transports servers e retryable after_go_away =
        (replays policy ≡ true) × (chain_has is_go_away_error e ≡ true)
    Grounds transports servers e retryable after_busy =
        (replays policy ≡ true)
        × (((server_retry_disposition equal_fold e).busy ≡ true)
            × (((server_retry_disposition equal_fold e).retryable ≡ true)
                × (servers < max_server_retries)))
    Grounds transports servers e retryable after_transport =
        (replays policy ≡ true) × ((retryable ≡ true) × (transports < max_retries))
    Grounds transports servers e retryable (returns why) = Unit {0}

    pub verdict-Grounds :
        {V : Type 0} (transports servers : ℕ) (r : Round V) (e : GoError) (retryable : Bool)
        → Grounds transports servers e retryable
            (verdict equal_fold policy max_retries transports servers r e retryable)
    unfolding verdict
    verdict-Grounds transports servers r e retryable =
        let d : Disposition = server_retry_disposition equal_fold e in
        elim (Bool-cases (replays policy && (chain_has is_go_away_error e && r.live_go_away))) [
          | inl drained ↦ rw (verdict, drained) (ground (arith, drained), ground (arith, drained))
          | inr not_drained ↦
              elim (Bool-cases (
                replays policy
                && (d.busy && (d.retryable && (ltb servers max_server_retries && r.live_busy))))) [
                  | inl busy ↦
                      rw (verdict, not_drained, busy)
                        (elim (Option-cases r.wait) [
                          | inl waited ↦ rw waited (
                            ground (arith, busy),
                            (ground (arith, busy), (ground (arith, busy), ground (arith, busy))),
                          )
                          | inr (w, late) ↦ rw late tt
                        ])
                  | inr not_busy ↦
                      elim (Bool-cases (
                        not (replays policy)
                        || (not retryable
                            || (leb max_retries transports || not r.live_transport)))) [
                              | inl final ↦ rw (verdict, not_drained, not_busy, final) tt
                              | inr open_retry ↦ elim (Bool-cases r.closed) [
                                | inl shut ↦
                                    rw (verdict, not_drained, not_busy, open_retry, shut) tt
                                | inr running ↦
                                    rw (verdict, not_drained, not_busy, open_retry, running)
                                      (
                                        ground (arith, open_retry),
                                        (ground (arith, open_retry), ground (arith, open_retry)),
                                      )
                              ]
                            ]
                ]
        ]
