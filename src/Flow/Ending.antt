-- ===== src/Flow/Ending.antt =====
-- How a waiter leaves the flow controller without a credit: it is cancelled, or the controller is closed.
use ferricstore_go.Base.{
  ℕ, ◌+◌, ◌-◌, ◌≤◌, ◌≡◌, refl, ap, true, false, List, [], ◌∷◌, length, none, some, Option-cases,
  Bool-cases, inl, inr, ◌||◌, not, ◌==◌, ==_iff, if◌then◌else◌, arith,
}
use ferricstore_go.Base.Dict.{
  nat_eq, lookup, lookup-insert_self, weight_at, weight_at-le, AllValues-lookup,
}
use ferricstore_go.Flow.Controller.{
  cancelled, remove_lane_queue, LaneQueue, Controller, contains, remove_from, remove_queued_waiter,
  acquire_cancelled,
}
use ferricstore_go.Flow.Invariant.{
  Inv, IsQueue, same, count, count-remove_from, waiting_of, one, left-Inv, emptied-Inv,
}
use ferricstore_go.Flow.Operations.{load}

contains-count : (w : ℕ) (xs : List ℕ) → 1 ≤ count w xs → contains w xs ≡ true
contains-count w [] queued = absurd (omega arith)
contains-count w (x ∷ xs) queued = ground (arith, contains-count w xs, ==_iff w x, ==_iff x w)

pub length-remove_from :
    (w : ℕ) (xs : List ℕ) → 1 ≤ count w xs → length (remove_from w xs) + 1 ≡ length xs
length-remove_from w [] queued = absurd (omega arith)
length-remove_from w (x ∷ xs) queued =
    ground (arith, length-remove_from w xs, ==_iff w x, ==_iff x w)

-- How often the waiter stands in the lane's queue.
abbrev pub waits_on : Controller → ℕ → ℕ → ℕ
waits_on c lane w = weight_at (λ q. count w q.waiters) (lookup lane c.queues)

-- A waiter that stands in the lane's queue and is cancelled leaves the queue, the controller stays
-- well-formed, its load is one less, and the waiter is settled as cancelled.
pub acquire_cancelled-removes :
    (c : Controller) (lane w : ℕ)
    → Inv c
    → 1 ≤ waits_on c lane w
    → Inv (acquire_cancelled c lane w)
      × (load (acquire_cancelled c lane w) + 1 ≡ load c)
      × (lookup w (acquire_cancelled c lane w).settled ≡ some cancelled)
unfolding acquire_cancelled remove_queued_waiter remove_lane_queue
acquire_cancelled-removes c lane w h queued = elim (Option-cases (lookup lane c.queues)) [
  | inl e ↦ absurd (omega (arith, queued, ap (weight_at (λ (q : LaneQueue). count w q.waiters)) e))
  | inr (q, found) ↦
      let there : 1 ≤ count w q.waiters =
        omega (arith, queued, ap (weight_at (λ (q : LaneQueue). count w q.waiters)) found) in
      let shorter = length-remove_from w q.waiters there in
      let takes : (x : ℕ) → count x (remove_from w q.waiters) + same x w ≡ count x q.waiters =
        λ x. count-remove_from x w q.waiters there in
      let p = AllValues-lookup IsQueue lane q c.queues h.counted found in
      let stays : (not (contains w q.waiters) || q.waiting == 0) ≡ false =
        ground (arith, p, contains-count w q.waiters there) in
      let fewer : 1 ≤ c.queued_total = omega (
        arith,
        h.queued,
        p,
        weight_at-le waiting_of lane c.queues,
        ap (weight_at waiting_of) found,
      ) in
      let gone : (x : ℕ)
          → count x (if q.ready then remove_from lane c.ready else c.ready) + same x lane
            ≡ count x c.ready =
        λ x. rw p.2 (
          count-remove_from x lane c.ready
            (omega (arith, h.listed lane, ap (weight_at one) found))) in
      (elim (Bool-cases (q.waiting - 1 == 0)) [
        | inl last ↦
            simp (acquire_cancelled, remove_queued_waiter, unsettled, found, stays, last)
              (
                emptied-Inv c lane w q cancelled (remove_from w q.waiters)
                    (if q.ready then remove_from lane c.ready else c.ready) h found takes shorter
                    ((==_iff (q.waiting - 1) 0).0 last) gone,
                omega (arith, fewer),
                lookup-insert_self w cancelled c.settled,
              )
        | inr more ↦
            simp (acquire_cancelled, remove_queued_waiter, unsettled, found, stays, more)
              (
                left-Inv c lane w q cancelled (remove_from w q.waiters) c.ready h found takes
                    shorter (ground (arith, ==_iff (q.waiting - 1) 0)) (λ x. refl),
                omega (arith, fewer),
                lookup-insert_self w cancelled c.settled,
              )
      ])
]
  where
    unsettled : lookup w c.settled ≡ none
    unsettled = elim (Option-cases (lookup w c.settled)) [
      | inl e ↦ e
      | inr (o, e) ↦ absurd (
          omega (
            arith,
            h.once w,
            ap (weight_at one) e,
            queued,
            weight_at-le (λ (r : LaneQueue). count w r.waiters) lane c.queues,
          ))
    ]
