-- ===== src/Flow/Admission.antt =====
-- What `acquire` answers, in terms of the limits and the counts, and what it does to the lanes.
use ferricstore_go.Base.{
  ℕ, ◌+◌, ◌≤◌, ◌<◌, ◌≡◌, refl, ap, sym, subst, ◌∙◌, List, [], ◌∷◌, ◌++◌, Option, none, some,
  Option-cases, Bool-cases, ◌⊎◌, inl, inr, leb→le, leb, ◌||◌, ◌==◌, ==_iff, if◌then◌else◌, arith,
}
use ferricstore_go.Base.Dict.{nat_eq, lookup, lookup-insert}
use ferricstore_go.Flow.Controller.{
  FlowError, lane_queue_closed, no_inflight_credit, client_queue_full, LaneQueue, Controller,
  active_on, activate, enqueue, queue_or_new, acquire, Acquired, refused, acquired, waiting_as,
}
use ferricstore_go.Flow.Invariant.{Inv, same, places}
use ferricstore_go.Flow.Acquire.{can_acquire-cases, acquire-Inv}

-- The waiters of a lane, from head to tail.
abbrev pub waiters_of : Option LaneQueue → List ℕ
waiters_of none = []
waiters_of (some q) = q.waiters

abbrev pub waiters_on : Controller → ℕ → List ℕ
waiters_on c l = waiters_of (lookup l c.queues)

-- A call with a live context on an open controller, and one whose limits allow any request at all.
abbrev pub IsOpen : Controller → Option FlowError → Type 0
IsOpen c context = (context ≡ none) × (c.closed ≡ none)

abbrev pub IsUsable : Controller → Option FlowError → Type 0
IsUsable c context =
    IsOpen c context × (1 ≤ c.lane_queue_limit) × (1 ≤ c.connection_limit) × (1 ≤ c.lane_limit)

abbrev pub HasCredit : Controller → ℕ → Type 0
HasCredit c lane = (c.active_total < c.connection_limit) × (active_on c lane < c.lane_limit)

abbrev pub HasNone : Controller → ℕ → Type 0
HasNone c lane = (c.connection_limit ≤ c.active_total) ⊎ (c.lane_limit ≤ active_on c lane)

-- Why a call is refused, each reason behind the ones before it.
pub data Refusal (c : Controller) (context : Option FlowError) (lane : ℕ) : FlowError → Type 0 where
  by_context : (e : FlowError) → context ≡ some e → Refusal c context lane e
  by_closing : (e : FlowError) → context ≡ none → c.closed ≡ some e → Refusal c context lane e
  by_queue_limit :
      IsOpen c context → c.lane_queue_limit ≡ 0 → Refusal c context lane lane_queue_closed
  by_credit_limit :
      IsOpen c context
      → 1 ≤ c.lane_queue_limit
      → (c.connection_limit ≡ 0) ⊎ (c.lane_limit ≡ 0)
      → Refusal c context lane no_inflight_credit
  by_full_queue :
      IsUsable c context
      → HasNone c lane
      → c.max_queued ≤ c.queued_total
      → Refusal c context lane client_queue_full

abbrev pub Admission : Controller → Option FlowError → ℕ → Controller × Acquired → Type 0
Admission c context lane (c', refused e) = Refusal c context lane e × (c' ≡ c)
Admission c context lane (c', acquired) =
    IsUsable c context
    × HasCredit c lane
    × (c'.active_total ≡ c.active_total + 1)
    × ((l : ℕ) → active_on c' l ≡ active_on c l + same l lane)
    × (c'.queued_total ≡ c.queued_total)
    × ((l : ℕ) → waiters_on c' l ≡ waiters_on c l)
    × (c'.settled ≡ c.settled)
Admission c context lane (c', waiting_as w) =
    IsUsable c context
    × HasNone c lane
    × (c.queued_total < c.max_queued)
    × (places c w ≡ 0)
    × (c'.active_total ≡ c.active_total)
    × ((l : ℕ) → active_on c' l ≡ active_on c l)
    × (c'.queued_total ≡ c.queued_total + 1)
    × ((l : ℕ)
        → waiters_on c' l ≡ (if lane == l then waiters_on c l ++ (w ∷ []) else waiters_on c l))
    × (c'.settled ≡ c.settled)

activate-active_on :
    (c : Controller) (lane l : ℕ) → active_on (activate c lane) l ≡ active_on c l + same l lane
unfolding activate
activate-active_on c lane l = elim (Bool-cases (lane == l)) [
  | inl here ↦
      rw (lookup-insert lane l (active_on c lane + 1) c.active_by_lane, here)
        (ground (arith, here, ap (active_on c) ((==_iff lane l).0 here)))
  | inr away ↦
      rw (lookup-insert lane l (active_on c lane + 1) c.active_by_lane, away) (ground (arith, away))
]

waiters_of-new : (o : Option LaneQueue) → (queue_or_new o).waiters ≡ waiters_of o
waiters_of-new none = refl
waiters_of-new (some q) = refl

enqueue-waiters_on :
    (c : Controller) (lane l : ℕ)
    → waiters_on (enqueue c lane) l
      ≡ (if lane == l then waiters_on c l ++ (c.next_waiter ∷ []) else waiters_on c l)
unfolding enqueue
enqueue-waiters_on c lane l = elim (Bool-cases (lane == l)) [
  | inl here ↦
      rw (lookup-insert lane l _ c.queues, here)
        (ap (λ ws. ws ++ (c.next_waiter ∷ []))
          (waiters_of-new (lookup lane c.queues) ∙ ap (waiters_on c) ((==_iff lane l).0 here)))
  | inr away ↦ rw (lookup-insert lane l _ c.queues, away) refl
]

activate-Admission :
    (c : Controller) (lane : ℕ)
    → IsUsable c none
    → HasCredit c lane
    → Admission c none lane (activate c lane, acquired)
unfolding activate
activate-Admission c lane usable credit =
    (usable, credit, refl, activate-active_on c lane, refl, (λ l. refl), refl)

enqueue-Admission :
    (c : Controller) (lane : ℕ)
    → Inv c
    → IsUsable c none
    → HasNone c lane
    → c.queued_total < c.max_queued
    → Admission c none lane (enqueue c lane, waiting_as c.next_waiter)
unfolding enqueue
enqueue-Admission c lane h usable full room = (
  usable,
  full,
  room,
  h.fresh c.next_waiter (omega arith),
  refl,
  (λ l. refl),
  refl,
  enqueue-waiters_on c lane,
  refl,
)

answers :
    (c : Controller) (context : Option FlowError) (lane : ℕ)
    → Inv c
    → Admission c context lane (acquire c context lane)
unfolding acquire
answers c (some e) lane h = (by_context e refl, refl)
answers c none lane h = elim (Option-cases c.closed) [
  | inr (e, shut) ↦ is (c, refused e) (simp (acquire, shut) refl) (by_closing e refl shut, refl)
  | inl live ↦ elim (Bool-cases (c.lane_queue_limit == 0)) [
    | inl no_queue ↦
        is (c, refused lane_queue_closed) (simp (acquire, live, no_queue) refl)
          (by_queue_limit (refl, live) ((==_iff _ _).0 no_queue), refl)
    | inr queue ↦
        let queue_limit : 1 ≤ c.lane_queue_limit = ground (arith, queue) in
        (elim (Bool-cases (c.connection_limit == 0 || c.lane_limit == 0)) [
          | inl no_credit ↦
              is (c, refused no_inflight_credit) (simp (acquire, live, queue, no_credit) refl)
                (by_credit_limit (refl, live) queue_limit (ground (arith, no_credit)), refl)
          | inr some_credit ↦
              let usable : IsUsable c none = (
                (refl, live),
                queue_limit,
                ground (arith, some_credit),
                ground (arith, some_credit),
              ) in
              (elim (can_acquire-cases c lane) [
                | inl (can, room, lane_room) ↦
                    is (activate c lane, acquired)
                      (simp (acquire, live, queue, some_credit, can) refl)
                      (activate-Admission c lane usable (room, lane_room))
                | inr (cannot, reached) ↦ elim (Bool-cases (leb c.max_queued c.queued_total)) [
                  | inl full ↦
                      is (c, refused client_queue_full)
                        (simp (acquire, live, queue, some_credit, cannot, full) refl)
                        (by_full_queue usable reached (leb→le _ _ full), refl)
                  | inr room ↦
                      is (enqueue c lane, waiting_as c.next_waiter)
                        (simp (acquire, live, queue, some_credit, cannot, room) refl)
                        (enqueue-Admission c lane h usable reached (ground (arith, room)))
                ]
              ])
        ])
  ]
]
  where
    is :
        (r : Controller × Acquired)
        → acquire c none lane ≡ r
        → Admission c none lane r
        → Admission c none lane (acquire c none lane)
    is r same there = subst (Admission c none lane) (sym same) there

-- What a call on a well-formed controller answers: it is refused, and changes nothing, exactly for the first of the
-- reasons that applies; it gets
-- a credit where both limits had one left, which is counted on the connection and on the lane alone;
-- otherwise a limit is reached and the queues have room, and a new waiter stands last in the lane's queue alone.
-- The controller stays well-formed.
pub acquire-Admission :
    (c : Controller) (context : Option FlowError) (lane : ℕ)
    → Inv c
    → Inv (acquire c context lane).0 × Admission c context lane (acquire c context lane)
acquire-Admission c context lane h = (acquire-Inv c context lane h, answers c context lane h)
