-- ===== src/Retry/Replays.antt =====
-- The loop sends a request again only where that is safe, and ends.
use ferricstore_go.Base.{
  ℕ, suc, ◌≡◌, ◌⊎◌, refl, sym, ap, ◌∙◌, List, [], ◌∷◌, All, Bool, true, false, Result, Result-cases,
  err_injective, subst, ok, err, Bool-cases, Option-cases, inl, inr,
}
use ferricstore_go.Base.Bytes.{Bytes}
use ferricstore_go.Retry.Errors.{
  GoError, transport, native, NativeError, chain_has, is_go_away_error, is_not_sent_error,
  mark_command_not_sent, native_error_value, server_retry_disposition, disposition_of,
  safe_to_retry,
}
use ferricstore_go.Retry.Loop.{
  ReplayPolicy, Attempt, done_before, not_connected, no_credit, refused, broken, failed_answer,
  rejected, gave_up, answered, request_once, Round, Run, Verdict, after_go_away, after_busy,
  after_transport, returns, verdict, retry_loop, follow,
}
use ferricstore_go.Retry.Safety.{
  IsLocal, IsPlain, Replayable, retryable-safe, Grounds, verdict-Grounds,
}

module _ (equal_fold : Bytes → Bytes → Bool) where
  -- Why a failed attempt is followed by another.
  abbrev Cause : GoError → Bool → Type 0
  Cause e retryable =
      (chain_has is_go_away_error e ≡ true)
      ⊎ ((((server_retry_disposition equal_fold e).busy ≡ true)
            × ((server_retry_disposition equal_fold e).retryable ≡ true))
          ⊎ (retryable ≡ true))

  local_end : {A : Type 0} (e : GoError) → IsLocal e → Cause e false → A
  unfolding server_retry_disposition
  local_end e (quiet, unanswered) (inl drained) =
      absurd (let no : true ≡ false = sym drained ∙ quiet in cc)
  local_end e (quiet, unanswered) (inr (inl (busy, retryable))) =
      absurd (let no : false ≡ true = rw (server_retry_disposition, unanswered) at busy in cc)
  local_end e (quiet, unanswered) (inr (inr final)) = absurd (let no : false ≡ true = final in cc)

  marked-IsLocal : (e : GoError) → IsLocal e → IsLocal (mark_command_not_sent e)
  unfolding mark_command_not_sent chain_has native_error_value
  marked-IsLocal e (quiet, unanswered) = elim (Bool-cases (chain_has is_not_sent_error e)) [
    | inl marked ↦ rw (mark_command_not_sent, marked) (quiet, unanswered)
    | inr plain ↦ rw (mark_command_not_sent, plain) (quiet, unanswered)
  ]

  failed_values :
      {V : Type 0} (a : Attempt V) {e e' : GoError} {b b' : Bool}
      → ◌≡◌ {A = Result (GoError × Bool) V} (err (e, b)) (err (e', b'))
      → (e ≡ e') × (b ≡ b')
  failed_values a h =
      let both : ◌≡◌ {A = GoError × Bool} _ _ = err_injective h in
      (ap (λ x. x.0) both, ap (λ x. x.1) both)

  safe_rejection :
      (n : NativeError)
      → Cause (native n) false
      → ((disposition_of equal_fold n).busy ≡ true) × (safe_to_retry equal_fold n ≡ true)
  unfolding chain_has server_retry_disposition native_error_value
  safe_rejection n (inl drained) = absurd (let no : false ≡ true = drained in cc)
  safe_rejection n (inr (inl (busy, retryable))) = (busy, retryable-safe equal_fold n retryable)
  safe_rejection n (inr (inr final)) = absurd (let no : false ≡ true = final in cc)

  -- An attempt that is followed by another one had written nothing, or was answered as safe.
  once-Replayable :
      {V : Type 0} (a : Attempt V) (e : GoError) (b : Bool)
      → IsPlain a
      → request_once a ≡ err (e, b)
      → Cause e b
      → Replayable equal_fold a
  unfolding request_once chain_has server_retry_disposition native_error_value
  once-Replayable (not_connected x r) e b plain h cause = tt
  once-Replayable (no_credit x) e b plain h cause = tt
  once-Replayable (refused x) e b plain h cause = tt
  once-Replayable (done_before x) e b plain h cause =
      let (he, hb) = failed_values (done_before x) h in
      local_end (mark_command_not_sent x) (marked-IsLocal x plain) (
        subst (λ c. Cause (mark_command_not_sent x) c) (sym hb)
          (subst (λ y. Cause y b) (sym he) cause))
  once-Replayable (failed_answer x) e b plain h cause =
      let (he, hb) = failed_values (failed_answer x) h in
      local_end x plain (subst (λ c. Cause x c) (sym hb) (subst (λ y. Cause y b) (sym he) cause))
  once-Replayable (gave_up x) e b plain h cause =
      let (he, hb) = failed_values (gave_up x) h in
      local_end x plain (subst (λ c. Cause x c) (sym hb) (subst (λ y. Cause y b) (sym he) cause))
  once-Replayable (broken n) e b plain h cause =
      let (he, hb) = failed_values (broken n) h in
      local_end (transport n) (refl, refl)
        (subst (λ c. Cause (transport n) c) (sym hb) (subst (λ y. Cause y b) (sym he) cause))
  once-Replayable (rejected n) e b plain h cause =
      let (he, hb) = failed_values (rejected n) h in
      safe_rejection n
        (subst (λ c. Cause (native n) c) (sym hb) (subst (λ y. Cause y b) (sym he) cause))
  once-Replayable (answered v) e b plain h cause = absurd (let no : ok v ≡ err (e, b) = h in cc)

  module _ {V : Type 0} (policy : ReplayPolicy) (max_retries : ℕ) where
    abbrev PlainRounds : List (Round V) → Type 0
    PlainRounds rs = All (λ r. IsPlain (r.attempt)) rs

    follow-Replayable :
        (transports servers : ℕ) (a : Attempt V) (e : GoError) (b : Bool) (v : Verdict)
        (x y z : Run V)
        → Grounds equal_fold policy max_retries transports servers e b v
        → (Cause e b → Replayable equal_fold a)
        → All (λ k. Replayable equal_fold k) x.1
        → All (λ k. Replayable equal_fold k) y.1
        → All (λ k. Replayable equal_fold k) z.1
        → All (λ k. Replayable equal_fold k) (follow a v x y z).1
    follow-Replayable transports servers a e b after_go_away x y z (_, drained) safe hx hy hz =
        (safe (inl drained), hx)
    follow-Replayable transports servers a e b after_busy x y z (_, (busy, (flags, _))) safe hx hy
          hz =
        (safe (inr (inl (busy, flags))), hy)
    follow-Replayable transports servers a e b after_transport x y z (_, (fits, _)) safe hx hy hz =
        (safe (inr (inr fits)), hz)
    follow-Replayable transports servers a e b (returns why) x y z g safe hx hy hz = tt

    -- Where errors on response channels and contexts are the client's own, every attempt that is followed by
    -- another one had written nothing of the request, or the server answered BUSY with both flags that
    -- allow a retry.
    pub retry_loop-Replayable :
        (transports servers : ℕ) (rs : List (Round V))
        → PlainRounds rs
        → All
            (λ a. Replayable equal_fold a)
            (retry_loop equal_fold policy max_retries transports servers rs).1
    unfolding retry_loop
    retry_loop-Replayable transports servers [] plain = tt
    retry_loop-Replayable transports servers (r ∷ rs) (one, plain) = elim (Option-cases r.context) [
      | inr (e, late) ↦ rw (retry_loop, late) tt
      | inl live ↦ elim (Result-cases (request_once r.attempt)) [
        | inl (v, done) ↦ rw (retry_loop, live, done) tt
        | inr ((e, b), failed) ↦
            rw (retry_loop, live, failed)
              (follow-Replayable transports servers r.attempt e b
                (verdict equal_fold policy max_retries transports servers r e b)
                (retry_loop equal_fold policy max_retries transports servers rs)
                (retry_loop equal_fold policy max_retries transports (suc servers) rs)
                (retry_loop equal_fold policy max_retries (suc transports) servers rs)
                (verdict-Grounds equal_fold policy max_retries transports servers r e b)
                (once-Replayable r.attempt e b one failed)
                (retry_loop-Replayable transports servers rs plain)
                (retry_loop-Replayable transports (suc servers) rs plain)
                (retry_loop-Replayable (suc transports) servers rs plain))
      ]
    ]
