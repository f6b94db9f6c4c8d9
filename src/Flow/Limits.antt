-- ===== src/Flow/Limits.antt =====
-- No interleaving of calls hands out more credits than the limits of the connection and of its lanes.
use ferricstore_go.Base.{
  ℕ, ◌+◌, ◌-◌, ◌≤◌, ◌<◌, ◌≡◌, ap, sym, subst, List, Option, some, Option-cases, Bool-cases, inl,
  inr, ◌||◌, not, ◌==◌, ==_iff, arith,
}
use ferricstore_go.Base.Dict.{nat_eq, lookup, insert, delete, lookup-insert, lookup-delete}
use ferricstore_go.Flow.Controller.{
  FlowError, granted, cancelled, failed, Controller, count_of, active_on, activate, enqueue,
  acquire, Acquired, refused, acquired, waiting_as, release, contains, remove_lane_queue,
  remove_queued_waiter, acquire_cancelled, close,
}
use ferricstore_go.Flow.Invariant.{Inv}
use ferricstore_go.Flow.Visit.{Pumped}
use ferricstore_go.Flow.Acquire.{AcquireOutcome, acquire-AcquireOutcome, acquire-Inv}
use ferricstore_go.Flow.Operations.{returned, returned-Inv, pump_if_open-ends}
use ferricstore_go.Flow.Ending.{waits_on, acquire_cancelled-removes}
use ferricstore_go.Flow.Close.{close-fails}

-- No count is over its limit.
abbrev pub WithinLimits : Controller → Type 0
WithinLimits c = (c.active_total ≤ c.connection_limit) × ((l : ℕ) → active_on c l ≤ c.lane_limit)

-- The calls that the executor makes on the controller; a waiter whose context is done stands in the lane's
-- queue, or has its credit already and gives it back.
pub data Call : Controller → Controller → Type 0 where
  acquires :
      (c : Controller) (context : Option FlowError) (lane : ℕ) → Call c (acquire c context lane).0
  releases : (c : Controller) (lane : ℕ) → Call c (release c lane)
  cancels :
      (c : Controller) (lane w : ℕ) → 1 ≤ waits_on c lane w → Call c (acquire_cancelled c lane w)
  gives_back :
      (c : Controller) (lane w : ℕ)
      → lookup w c.settled ≡ some granted
      → Call c (acquire_cancelled c lane w)
  closes : (c : Controller) (e : FlowError) → Call c (close c e)

pub data Reachable (c : Controller) : Controller → Type 0 where
  start : Reachable c c
  step : (d d' : Controller) → Reachable c d → Call d d' → Reachable c d'

activate-WithinLimits :
    (c : Controller) (lane : ℕ)
    → WithinLimits c
    → c.active_total < c.connection_limit
    → active_on c lane < c.lane_limit
    → WithinLimits (activate c lane)
unfolding activate
activate-WithinLimits c lane (all, lanes) room lane_room = (
  omega arith,
  λ l. elim (Bool-cases (lane == l)) [
    | inl e ↦
        rw (lookup-insert lane l (active_on c lane + 1) c.active_by_lane, e)
          (omega (arith, lane_room))
    | inr e ↦ rw (lookup-insert lane l (active_on c lane + 1) c.active_by_lane, e) (lanes l)
  ],
)

enqueue-WithinLimits : (c : Controller) (lane : ℕ) → WithinLimits c → WithinLimits (enqueue c lane)
unfolding enqueue
enqueue-WithinLimits c lane h = h

acquire-WithinLimits :
    (c : Controller) (lane : ℕ) (r : Controller × Acquired)
    → WithinLimits c
    → AcquireOutcome c lane r
    → WithinLimits r.0
acquire-WithinLimits c lane (c', refused e) h unmoved = subst WithinLimits (sym unmoved) h
acquire-WithinLimits c lane (c', acquired) h (taken, room, lane_room) =
    subst WithinLimits (sym taken) (activate-WithinLimits c lane h room lane_room)
acquire-WithinLimits c lane (c', waiting_as w) h (queued, _, _, _) =
    subst WithinLimits (sym queued) (enqueue-WithinLimits c lane h)

Pumped-WithinLimits : (c c' : Controller) → Pumped c c' → WithinLimits c → WithinLimits c'
Pumped-WithinLimits c c' p (all, lanes) =
    (omega (arith, p.room, p.connection, all), λ l. omega (arith, p.lane_room l, p.lane, lanes l))

returned-WithinLimits :
    (c : Controller) (lane : ℕ) → WithinLimits c → WithinLimits (returned c lane)
returned-WithinLimits c lane (all, lanes) = (
  omega (arith, all),
  λ l. elim (Bool-cases (active_on c lane == 1)) [
    | inl last ↦ rw last (
        lowered l (delete lane c.active_by_lane) (
          rw (lookup-delete lane l c.active_by_lane) (elim (Bool-cases (lane == l)) [
            | inl e ↦ rw e (omega arith)
            | inr e ↦ rw e (omega arith)
          ])))
    | inr more ↦ rw more (
        lowered l (insert lane (active_on c lane - 1) c.active_by_lane) (
          rw (lookup-insert lane l (active_on c lane - 1) c.active_by_lane)
            (elim (Bool-cases (lane == l)) [
              | inl e ↦ rw e (omega (arith, ap (active_on c) ((==_iff lane l).0 e)))
              | inr e ↦ rw e (omega arith)
            ])))
  ],
)
  where
    lowered :
        (l : ℕ) (m : List (ℕ × ℕ))
        → count_of (lookup l m) ≤ active_on c l
        → count_of (lookup l m) ≤ c.lane_limit
    lowered l m le = omega (arith, le, lanes l)

release-WithinLimits :
    (c : Controller) (lane : ℕ)
    → Inv c
    → WithinLimits c
    → Inv (release c lane) × WithinLimits (release c lane)
unfolding release
release-WithinLimits c lane h within = elim (Bool-cases (active_on c lane == 0)) [
  | inl idle ↦ simp (release, idle) (h, within)
  | inr busy ↦
      let some_active : 1 ≤ active_on c lane = ground (arith, busy) in
      let p = (pump_if_open-ends (returned c lane) (returned-Inv c lane h some_active)).0 in
      simp (release, busy)
        (p.inv, Pumped-WithinLimits (returned c lane) _ p (returned-WithinLimits c lane within))
]

remove_queued_waiter-WithinLimits :
    (c : Controller) (lane w : ℕ) → WithinLimits c → WithinLimits (remove_queued_waiter c lane w)
unfolding remove_queued_waiter remove_lane_queue
remove_queued_waiter-WithinLimits c lane w h = elim (Option-cases (lookup lane c.queues)) [
  | inl e ↦ simp (remove_queued_waiter, e) h
  | inr (q, e) ↦ elim (Bool-cases (not (contains w q.waiters) || q.waiting == 0)) [
    | inl out ↦ simp (remove_queued_waiter, e, out) h
    | inr there ↦ elim (Bool-cases (q.waiting - 1 == 0)) [
      | inl last ↦ simp (remove_queued_waiter, e, there, last) h
      | inr more ↦ simp (remove_queued_waiter, e, there, more) h
    ]
  ]
]

cancelled-WithinLimits :
    (c : Controller) (lane w : ℕ)
    → Inv c
    → WithinLimits c
    → WithinLimits (acquire_cancelled c lane w)
unfolding acquire_cancelled
cancelled-WithinLimits c lane w h within = elim (Option-cases (lookup w c.settled)) [
  | inl e ↦
      simp (acquire_cancelled, e)
        (remove_queued_waiter-WithinLimits (record c { settled = insert w cancelled c.settled })
          lane w within)
  | inr (granted, e) ↦ simp (acquire_cancelled, e) (release-WithinLimits c lane h within).1
  | inr (cancelled, e) ↦ simp (acquire_cancelled, e) within
  | inr (failed x, e) ↦ simp (acquire_cancelled, e) within
]

gives_back-WithinLimits :
    (c : Controller) (lane w : ℕ)
    → lookup w c.settled ≡ some granted
    → Inv c
    → WithinLimits c
    → Inv (acquire_cancelled c lane w) × WithinLimits (acquire_cancelled c lane w)
unfolding acquire_cancelled
gives_back-WithinLimits c lane w e h within =
    simp (acquire_cancelled, e) (release-WithinLimits c lane h within)

close-Inv :
    (c : Controller) (e : FlowError)
    → Inv c
    → WithinLimits c
    → Inv (close c e) × WithinLimits (close c e)
unfolding close
close-Inv c e h within = elim (Option-cases c.closed) [
  | inl live ↦ ((close-fails c e h live).0, simp (close, live) within)
  | inr (x, shut) ↦ simp (close, shut) (h, within)
]

Call-WithinLimits :
    (c c' : Controller) → Call c c' → Inv c → WithinLimits c → Inv c' × WithinLimits c'
Call-WithinLimits _ _ (acquires c context lane) h within = (
  acquire-Inv c context lane h,
  acquire-WithinLimits c lane (acquire c context lane) within
      (acquire-AcquireOutcome c context lane),
)
Call-WithinLimits _ _ (releases c lane) h within = release-WithinLimits c lane h within
Call-WithinLimits _ _ (cancels c lane w queued) h within =
    ((acquire_cancelled-removes c lane w h queued).0, cancelled-WithinLimits c lane w h within)
Call-WithinLimits _ _ (gives_back c lane w e) h within = gives_back-WithinLimits c lane w e h within
Call-WithinLimits _ _ (closes c e) h within = close-Inv c e h within

-- After any sequence of calls from a well-formed controller within its limits, whatever their order, the
-- controller is well-formed, and no more requests have a credit than the connection and each lane allow.
pub Reachable-WithinLimits :
    (c c' : Controller) → Inv c → WithinLimits c → Reachable c c' → Inv c' × WithinLimits c'
Reachable-WithinLimits c _ h within start = (h, within)
Reachable-WithinLimits c _ h within (step d d' before call) =
    let (h', within') = Reachable-WithinLimits c d h within before in
    Call-WithinLimits d d' call h' within'
