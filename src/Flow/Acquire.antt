-- ===== src/Flow/Acquire.antt =====
-- Entering the flow controller: a new waiter keeps the invariant, and what a call of `acquire` does.
use ferricstore_go.Base.{
  ℕ, ◌+◌, ◌≤◌, ◌<◌, ◌≡◌, refl, ap, sym, ◌∙◌, true, false, List, [], ◌∷◌, ◌++◌, length-append,
  Option, none, some, Option-cases, Bool-cases, ◌⊎◌, inl, inr, leb, ◌||◌, subst, ◌==◌, ==_iff,
  if◌then◌else◌, arith,
}
use ferricstore_go.Base.Dict.{
  nat_eq, lookup, insert-Unique, lookup-insert, weight_at, total-insert, AllValues-insert,
  AllValues-lookup,
}
use ferricstore_go.Flow.Controller.{
  FlowError, LaneQueue, Controller, active_on, activate, can_acquire, enqueue, queue_or_new,
  acquire, Acquired, refused, acquired, waiting_as,
}
use ferricstore_go.Flow.Invariant.{
  Inv, IsQueue, same, count, count-snoc, same_self, same-eq, waiting_of, one, places, activate-Inv,
}

module _ (c : Controller) (lane : ℕ) (h : Inv c) where
  abbrev ready_after : Option LaneQueue → List ℕ
  ready_after o = if (queue_or_new o).ready then c.ready else c.ready ++ (lane ∷ [])

  ready_here : (o : Option LaneQueue) → lookup lane c.queues ≡ o → count lane (ready_after o) ≡ 1
  ready_here none e =
      omega
        (arith, count-snoc lane lane c.ready, same_self lane, h.listed lane, ap (weight_at one) e)
  ready_here (some q) e =
      rw (AllValues-lookup IsQueue lane q c.queues h.counted e).2
        (omega (arith, h.listed lane, ap (weight_at one) e))

  ready_elsewhere :
      (l : ℕ) (o : Option LaneQueue)
      → lookup lane c.queues ≡ o
      → (lane == l) ≡ false
      → count l (ready_after o) ≡ count l c.ready
  ready_elsewhere l none e other = rw (count-snoc l lane c.ready) (ground (arith, other))
  ready_elsewhere l (some q) e other = rw (AllValues-lookup IsQueue lane q c.queues h.counted e).2

  abbrev joined : Option LaneQueue → LaneQueue
  joined o = record {
    waiters = (queue_or_new o).waiters ++ (c.next_waiter ∷ []);
    waiting = (queue_or_new o).waiting + 1;
    ready = true;
  }

  joined-IsQueue : (o : Option LaneQueue) → lookup lane c.queues ≡ o → IsQueue (joined o)
  joined-IsQueue none e = (refl, omega arith, refl)
  joined-IsQueue (some q) e = (
    omega (
      arith,
      length-append q.waiters (c.next_waiter ∷ []),
      AllValues-lookup IsQueue lane q c.queues h.counted e,
    ),
    omega arith,
    refl,
  )

  joined-count :
      (w : ℕ) (o : Option LaneQueue)
      → count w (joined o).waiters ≡ weight_at (λ q. count w q.waiters) o + same w c.next_waiter
  joined-count w none = omega arith
  joined-count w (some q) = count-snoc w c.next_waiter q.waiters

  joined-waiting : (o : Option LaneQueue) → (joined o).waiting ≡ weight_at waiting_of o + 1
  joined-waiting none = omega arith
  joined-waiting (some q) = refl

  -- Only the new waiter's number gets a place.
  enqueue-places : (w : ℕ) → places (enqueue c lane) w ≡ places c w + same w c.next_waiter
  unfolding enqueue
  enqueue-places w = omega (
    arith,
    total-insert (λ (q : LaneQueue). count w q.waiters) lane (joined (lookup lane c.queues))
        c.queues,
    joined-count w (lookup lane c.queues),
  )

  pub enqueue-Inv : Inv (enqueue c lane)
  unfolding enqueue
  enqueue-Inv = record {
    unique_active = h.unique_active;
    unique_queues = insert-Unique lane (joined (lookup lane c.queues)) c.queues h.unique_queues;
    active = h.active;
    queued = omega (
      arith,
      h.queued,
      total-insert waiting_of lane (joined (lookup lane c.queues)) c.queues,
      joined-waiting (lookup lane c.queues),
    );
    counted =
        AllValues-insert IsQueue lane (joined (lookup lane c.queues)) c.queues
          (joined-IsQueue (lookup lane c.queues) refl) h.counted;
    once = λ w. elim (Bool-cases (w == c.next_waiter)) [
      | inl e ↦ omega (
        arith,
        enqueue-places w,
        h.fresh w (ground (arith, e)),
        same-eq w c.next_waiter ((==_iff w c.next_waiter).0 e),
      )
      | inr e ↦ one_place w (h.once w) (enqueue-places w) e
    ];
    fresh = λ w le. no_place w (h.fresh w (omega (arith, le))) (enqueue-places w) le;
    listed = λ l. elim (Bool-cases (lane == l)) [
      | inl e ↦
          rw (lookup-insert lane l (joined (lookup lane c.queues)) c.queues, e)
            (ap (λ k. count k (ready_after (lookup lane c.queues))) (sym ((==_iff lane l).0 e))
              ∙ ready_here (lookup lane c.queues) refl)
      | inr e ↦
          rw (lookup-insert lane l (joined (lookup lane c.queues)) c.queues, e)
            (ready_elsewhere l (lookup lane c.queues) refl e ∙ h.listed l)
    ];
  }
    where
      one_place :
          (w : ℕ)
          → places c w ≤ 1
          → places (enqueue c lane) w ≡ places c w + same w c.next_waiter
          → (w == c.next_waiter) ≡ false
          → places (enqueue c lane) w ≤ 1
      one_place w once added other = ground (arith)

      no_place :
          (w : ℕ)
          → places c w ≡ 0
          → places (enqueue c lane) w ≡ places c w + same w c.next_waiter
          → c.next_waiter + 1 ≤ w
          → places (enqueue c lane) w ≡ 0
      no_place w none_yet added le = ground (arith)

-- What a call of `acquire` may do: refuse and change nothing, take a credit, which both limits had left,
-- or join a queue that has room, as a new waiter, because one of the limits is reached.
abbrev pub AcquireOutcome : Controller → ℕ → Controller × Acquired → Type 0
AcquireOutcome c lane (c', refused e) = c' ≡ c
AcquireOutcome c lane (c', acquired) =
    (c' ≡ activate c lane)
    × (c.active_total < c.connection_limit)
    × (active_on c lane < c.lane_limit)
AcquireOutcome c lane (c', waiting_as w) =
    (c' ≡ enqueue c lane)
    × (w ≡ c.next_waiter)
    × (c.queued_total < c.max_queued)
    × ((c.connection_limit ≤ c.active_total) ⊎ (c.lane_limit ≤ active_on c lane))

pub can_acquire-cases :
    (c : Controller) (lane : ℕ)
    → ((can_acquire c lane ≡ true)
        × (c.active_total < c.connection_limit)
        × (active_on c lane < c.lane_limit))
      ⊎ ((can_acquire c lane ≡ false)
          × ((c.connection_limit ≤ c.active_total) ⊎ (c.lane_limit ≤ active_on c lane)))
unfolding can_acquire
can_acquire-cases c lane = ground arith

-- A call of `acquire` refuses and changes nothing, or takes a credit that both limits had left, or queues
-- a new waiter.
pub acquire-AcquireOutcome :
    (c : Controller) (context : Option FlowError) (lane : ℕ)
    → AcquireOutcome c lane (acquire c context lane)
unfolding acquire
acquire-AcquireOutcome c (some e) lane = refl
acquire-AcquireOutcome c none lane = elim (Option-cases c.closed) [
  | inr (e, shut) ↦ simp (acquire, shut) refl
  | inl live ↦ elim (Bool-cases (c.lane_queue_limit == 0)) [
    | inl shut ↦ simp (acquire, live, shut) refl
    | inr some_queue ↦ elim (Bool-cases (c.connection_limit == 0 || c.lane_limit == 0)) [
      | inl no_credit ↦ simp (acquire, live, some_queue, no_credit) refl
      | inr credit ↦ elim (can_acquire-cases c lane) [
        | inl (can, room, lane_room) ↦
            simp (acquire, live, some_queue, credit, can) (refl, room, lane_room)
        | inr (cannot, reached) ↦ elim (Bool-cases (leb c.max_queued c.queued_total)) [
          | inl full ↦ simp (acquire, live, some_queue, credit, cannot, full) refl
          | inr room ↦
              simp (acquire, live, some_queue, credit, cannot, room)
                (refl, refl, ground (arith, room), reached)
        ]
      ]
    ]
  ]
]

-- Whatever a call of `acquire` answers, the controller that it leaves is well-formed if it was before.
pub acquire-Inv :
    (c : Controller) (context : Option FlowError) (lane : ℕ)
    → Inv c
    → Inv (acquire c context lane).0
acquire-Inv c context lane h = kept (acquire c context lane) (acquire-AcquireOutcome c context lane)
  where
    kept : (r : Controller × Acquired) → AcquireOutcome c lane r → Inv r.0
    kept (c', refused e) unmoved = subst Inv (sym unmoved) h
    kept (c', acquired) (taken, _, _) = subst Inv (sym taken) (activate-Inv c lane h)
    kept (c', waiting_as w) (queued, _, _, _) = subst Inv (sym queued) (enqueue-Inv c lane h)
