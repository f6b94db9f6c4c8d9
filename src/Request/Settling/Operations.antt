-- ===== src/Request/Settling/Operations.antt =====
-- What delivery, removal, draining, cancellation and closing do to the map of pending requests, method by
-- method.
use ferricstore_go.Base.{
  ℕ, ◌≡◌, refl, sym, ap, ◌∙◌, List, [], ◌∷◌, ◌++◌, Bool, true, false, ◌&&◌, not, Bool-cases,
  Option-cases, inl, inr, Option, none, some, ==_iff, arith,
}
use ferricstore_go.Base.Dict.{nat_eq, lookup, delete, Unique, delete-Unique}
use ferricstore_go.Wire.Value.{Value}
use ferricstore_go.Frame.Response.{Response}
use ferricstore_go.Request.Executor.{
  Executor, Effect, response, schedules_drain, RequestError, connection_unavailable,
  release_effects, answer_effects, has_live_pending, close_if_current, close_if_idle,
  close_if_draining, remove_pending, drop_request, start_drain, schedule, settle, handle_go_away,
  deliver, is_conn, matches, mismatch,
}
use ferricstore_go.Request.Settling.{
  Settles, IsSound, Settles-refl, Settles-trans, close_with-Settles, removed-Settles,
}

abbrev pub Settled : Executor → Executor → Type 0
Settled e e' = Settles e e' × IsSound e'

-- What is left of soundness while the live request of a draining connection may be gone.
pub record IsReady (e : Executor) : Type 0 where
  pub unique : Unique e.pending
  pub draining_conn : e.go_away ≡ true → (c : ℕ) × (e.conn ≡ some c)

pub close_if_idle-Settled : (e : Executor) → IsReady e → Settled e (close_if_idle e)
unfolding close_if_idle
close_if_idle-Settled e r = elim (Bool-cases (has_live_pending e.pending)) [
  | inl live ↦
      simp (close_if_idle, live)
        (
          Settles-refl e,
          record { unique = r.unique; draining_conn = r.draining_conn; draining_live = λ h. live },
        )
  | inr idle ↦ simp (close_if_idle, idle) (close_with-Settles e [] connection_unavailable)
]

pub close_if_draining-Settled : (e : Executor) → IsReady e → Settled e (close_if_draining e)
unfolding close_if_draining
close_if_draining-Settled e r = elim (Bool-cases e.go_away) [
  | inl draining ↦ simp (close_if_draining, draining) (close_if_idle-Settled e r)
  | inr steady ↦
      simp (close_if_draining, steady)
        (
          Settles-refl e,
          record {
            unique = r.unique;
            draining_conn = r.draining_conn;
            draining_live = λ h. absurd (let no : true ≡ false = sym h ∙ steady in cc);
          },
        )
]

-- A log that grows settles nothing.
pub logged-Settled :
    (e e' : Executor) (log : List Effect) → Settled e e' → Settled e (record e' { log = log })
logged-Settled e e' log (s, g) = (
  record { kept = s.kept; same_conn = s.same_conn; same_next = s.same_next },
  record { unique = g.unique; draining_conn = g.draining_conn; draining_live = g.draining_live },
)

pub schedule-Settled :
    (draining : Bool) (c : ℕ) (e e' : Executor) → Settled e e' → Settled e (schedule draining c e')
schedule-Settled true c e e' s = s
schedule-Settled false c e e' s = logged-Settled e e' (e'.log ++ (schedules_drain c ∷ [])) s

settle-Settled : (e : Executor) (effects : List Effect) → IsReady e → Settled e (settle e effects)
unfolding settle
settle-Settled e effects r = elim (Bool-cases (e.go_away && not (has_live_pending e.pending))) [
  | inl idle ↦ simp (settle, idle) (close_with-Settles e effects connection_unavailable)
  | inr busy ↦
      simp (settle, busy)
        (logged-Settled e e (e.log ++ effects) (
          Settles-refl e,
          record {
            unique = r.unique;
            draining_conn = r.draining_conn;
            draining_live = λ h. ground (arith, h, busy);
          },
        ))
]

pub start_drain-Ready :
    (e : Executor) (c : ℕ)
    → Unique e.pending
    → e.conn ≡ some c
    → Settles e (start_drain e) × IsReady (start_drain e)
unfolding start_drain
start_drain-Ready e c u h = elim (Bool-cases e.go_away) [
  | inl draining ↦
      simp (start_drain, draining)
        (Settles-refl e, record { unique = u; draining_conn = λ _. (c, h) })
  | inr steady ↦
      simp (start_drain, steady)
        (
          record {
            kept = λ j q k. (q, (k, (refl, λ live. live)));
            same_conn = λ j q k. refl;
            same_next = refl;
          },
          record { unique = u; draining_conn = λ _. (c, h) },
        )
]

pub removed-Ready :
    (e : Executor) (id : ℕ) → IsSound e → IsReady (record e { pending = delete id e.pending })
removed-Ready e id g = record {
  unique = delete-Unique id e.pending g.unique;
  draining_conn = g.draining_conn;
}

after_removal :
    (e e' : Executor) (id : ℕ)
    → Settled (record e { pending = delete id e.pending }) e'
    → Settled e e'
after_removal e e' id (s, g) =
    (Settles-trans e (record e { pending = delete id e.pending }) e' (removed-Settles e id) s, g)

remove_pending-Settled : (e : Executor) (id : ℕ) → IsSound e → Settled e (remove_pending e id)
unfolding remove_pending
remove_pending-Settled e id g =
    after_removal e (remove_pending e id) id (
      close_if_draining-Settled (record e { pending = delete id e.pending }) (removed-Ready e id g))

pub drop_request-Settled : (e : Executor) (id : ℕ) → IsSound e → Settled e (drop_request e id)
unfolding drop_request
drop_request-Settled e id g = elim (Option-cases (lookup id e.pending)) [
  | inl missing ↦ simp (drop_request, missing) (remove_pending-Settled e id g)
  | inr (p, found) ↦
      simp (drop_request, found)
        (logged-Settled e (remove_pending e id) ((remove_pending e id).log ++ release_effects p)
          (remove_pending-Settled e id g))
]

pub is_conn-some : (o : Option ℕ) (c : ℕ) → is_conn o c ≡ true → o ≡ some c
is_conn-some none c h = cc
is_conn-some (some d) c h = ap some ((==_iff d c).0 h)

pub close_if_current-Settled :
    (e : Executor) (c : ℕ) (why : RequestError) → IsSound e → Settled e (close_if_current e c why)
unfolding close_if_current
close_if_current-Settled e c why g = elim (Bool-cases (is_conn e.conn c)) [
  | inl same ↦ simp (close_if_current, same) (close_with-Settles e [] why)
  | inr other ↦ simp (close_if_current, other) (Settles-refl e, g)
]

pub deliver-Settled :
    (e : Executor) (c : ℕ) (frame : Response Value) → IsSound e → Settled e (deliver e c frame)
unfolding deliver
deliver-Settled e c frame g = elim (Bool-cases (is_conn e.conn c)) [
  | inr other ↦ simp (deliver, other) (Settles-refl e, g)
  | inl same ↦ elim (Option-cases (lookup frame.request_id e.pending)) [
    | inl missing ↦ simp (deliver, same, missing) (settled [])
    | inr (p, found) ↦ elim (Bool-cases (matches p frame.opcode frame.lane_id)) [
      | inl fits ↦
          simp (deliver, same, found, fits)
            (settled (release_effects p ++ answer_effects p (response frame)))
      | inr misfit ↦
          simp (deliver, same, found, misfit)
            (close_if_current-Settled e c (mismatch frame.lane_id frame.opcode frame.request_id) g)
    ]
  ]
]
  where
    settled :
        (effects : List Effect)
        → Settled e (settle (record e { pending = delete frame.request_id e.pending }) effects)
    settled effects =
        after_removal e (settle (record e { pending = delete frame.request_id e.pending }) effects)
          frame.request_id
          (settle-Settled (record e { pending = delete frame.request_id e.pending }) effects
            (removed-Ready e frame.request_id g))

pub handle_go_away-Settled : (e : Executor) (c : ℕ) → IsSound e → Settled e (handle_go_away e c)
unfolding handle_go_away
handle_go_away-Settled e c g = elim (Bool-cases (is_conn e.conn c)) [
  | inr other ↦ simp (handle_go_away, other) (Settles-refl e, g)
  | inl same ↦ elim (Bool-cases e.go_away) [
    | inl draining ↦ simp (handle_go_away, same, draining) (Settles-refl e, g)
    | inr steady ↦ simp (handle_go_away, same, steady) (drained same)
  ]
]
  where
    drained : is_conn e.conn c ≡ true → Settled e (schedule false c (close_if_idle (start_drain e)))
    drained same =
        let (s, r) = start_drain-Ready e c g.unique (is_conn-some e.conn c same) in
        let (s', g') = close_if_idle-Settled (start_drain e) r in
        schedule-Settled false c e (close_if_idle (start_drain e))
          (Settles-trans e (start_drain e) (close_if_idle (start_drain e)) s s', g')
