-- ===== src/Flow/Grant.antt =====
-- One grant of the flow controller's pump: what it does to the controller.
use ferricstore_go.Base.{
  ℕ, ◌+◌, ◌-◌, ◌≤◌, ◌≡◌, refl, ap, false, List, [], ◌∷◌, ◌++◌, length, some, Option-cases,
  Bool-cases, inl, inr, ◌==◌, ==_iff, if◌then◌else◌, arith,
}
use ferricstore_go.Base.Dict.{nat_eq, lookup, insert, weight_at, weight_at-le, AllValues-lookup}
use ferricstore_go.Flow.Controller.{
  granted, LaneQueue, Controller, active_on, activate, remove_from, remove_lane_queue, is_settled,
  take_waiter, grant,
}
use ferricstore_go.Flow.Invariant.{
  Inv, IsQueue, same, count, count-snoc, count-remove_from, same_self, waiting_of, one,
  activate-Inv, left-Inv, emptied-Inv,
}

-- A waiter in a queue is not settled yet.
queued-unsettled :
    (c : Controller) (lane w : ℕ) (q : LaneQueue)
    → Inv c
    → lookup lane c.queues ≡ some q
    → 1 ≤ count w q.waiters
    → is_settled c w ≡ false
queued-unsettled c lane w q h found queued = elim (Option-cases (lookup w c.settled)) [
  | inl e ↦ rw (is_settled, e)
  | inr (o, e) ↦ absurd (
      omega (
        arith,
        h.once w,
        ap (weight_at one) e,
        queued,
        weight_at-le (λ (r : LaneQueue). count w r.waiters) lane c.queues,
        ap (weight_at (λ (r : LaneQueue). count w r.waiters)) found,
      ))
]

-- So the waiter in front is the one that is taken.
pub take_waiter-head :
    (c : Controller) (lane w : ℕ) (q : LaneQueue) (ws : List ℕ)
    → Inv c
    → lookup lane c.queues ≡ some q
    → q.waiters ≡ w ∷ ws
    → take_waiter c q.waiters ≡ some (w, ws)
unfolding take_waiter
take_waiter-head c lane w q ws h found front =
    rw (front, queued-unsettled c lane w q h found (rw front (omega (arith, same_self w))))

module _ (c : Controller) (lane w : ℕ) (q : LaneQueue) (rest ws : List ℕ) (h : Inv c)
    (found : lookup lane c.queues ≡ some q) (front : q.waiters ≡ w ∷ ws)
    (turn : c.ready ≡ lane ∷ rest) where
  takes : (x : ℕ) → count x ws + same x w ≡ count x q.waiters
  takes x = rw front (omega arith)

  shorter : length ws + 1 ≡ length q.waiters
  shorter = rw front (omega arith)

  is_queue : IsQueue q
  is_queue = AllValues-lookup IsQueue lane q c.queues h.counted found

  pub grant-Inv : Inv (grant c lane q rest w ws)
  unfolding grant remove_lane_queue
  grant-Inv = elim (Bool-cases (q.waiting - 1 == 0)) [
    | inl last ↦ rw last (
        activate-Inv _ lane (
          emptied-Inv c lane w q granted ws (if q.ready then remove_from lane c.ready else c.ready)
            h found takes shorter ((==_iff (q.waiting - 1) 0).0 last) gone))
    | inr more ↦ rw more (
        activate-Inv _ lane (
          left-Inv c lane w q granted ws (rest ++ (lane ∷ [])) h found takes shorter
            (ground (arith, ==_iff (q.waiting - 1) 0)) moved))
  ]
    where
      gone :
          (x : ℕ)
          → count x (if q.ready then remove_from lane c.ready else c.ready) + same x lane
            ≡ count x c.ready
      gone x =
          rw is_queue.2 (count-remove_from x lane c.ready (rw turn (omega (arith, same_self lane))))

      moved : (x : ℕ) → count x (rest ++ (lane ∷ [])) ≡ count x c.ready
      moved x = rw turn (omega (arith, count-snoc x lane rest))

  pub grant-active_by_lane :
      (grant c lane q rest w ws).active_by_lane
      ≡ insert lane (active_on c lane + 1) c.active_by_lane
  unfolding grant remove_lane_queue activate
  grant-active_by_lane = elim (Bool-cases (q.waiting - 1 == 0)) [
    | inl last ↦ rw last
    | inr more ↦ rw more
  ]

  pub grant-counts :
      ((grant c lane q rest w ws).active_total ≡ c.active_total + 1)
      × ((grant c lane q rest w ws).queued_total ≡ c.queued_total - 1)
      × ((grant c lane q rest w ws).connection_limit ≡ c.connection_limit)
      × ((grant c lane q rest w ws).lane_limit ≡ c.lane_limit)
      × ((grant c lane q rest w ws).closed ≡ c.closed)
      × ((grant c lane q rest w ws).lane_window_limit ≡ c.lane_window_limit)
  unfolding grant remove_lane_queue activate
  grant-counts = elim (Bool-cases (q.waiting - 1 == 0)) [
    | inl last ↦ rw last (refl, refl, refl, refl, refl, refl)
    | inr more ↦ rw more (refl, refl, refl, refl, refl, refl)
  ]

  pub waits : 1 ≤ c.queued_total
  waits = omega (
    arith,
    h.queued,
    is_queue,
    weight_at-le waiting_of lane c.queues,
    ap (weight_at waiting_of) found,
  )
