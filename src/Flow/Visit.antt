-- ===== src/Flow/Visit.antt =====
-- What a visit of the lane in front of `f.ready` does to the flow controller.
use ferricstore_go.Base.{
  ℕ, ◌+◌, ◌-◌, ◌≤◌, ◌<◌, max, ◌≡◌, refl, ap, ◌∙◌, true, false, List, [], ◌∷◌, ◌++◌, length, some,
  Option-cases, Bool-cases, ◌⊎◌, inl, inr, leb→le, leb, ◌||◌, not, ◌==◌, ==_iff, arith,
}
use ferricstore_go.Base.Dict.{nat_eq, lookup, lookup-insert, weight_at, AllValues-lookup}
use ferricstore_go.Flow.Controller.{
  LaneQueue, Controller, active_on, grant, Visit, skip, grants, visit,
}
use ferricstore_go.Flow.Invariant.{Inv, IsQueue, count, count-snoc, same_self, one}
use ferricstore_go.Flow.Grant.{
  take_waiter-head, grant-Inv, grant-active_by_lane, grant-counts, waits,
}

-- What a pump may do: it moves requests from the queues to the active ones, within the limits.
pub record Pumped (c c' : Controller) : Type 0 where
  pub inv : Inv c'
  pub connection : c'.connection_limit ≡ c.connection_limit
  pub lane : c'.lane_limit ≡ c.lane_limit
  pub window : c'.lane_window_limit ≡ c.lane_window_limit
  pub closing : c'.closed ≡ c.closed
  pub kept : c'.active_total + c'.queued_total ≡ c.active_total + c.queued_total
  pub room : c'.active_total ≤ max c.active_total c.connection_limit
  pub lane_room : (l : ℕ) → active_on c' l ≤ max (active_on c l) c.lane_limit

pub Pumped-refl : (c : Controller) → Inv c → Pumped c c
Pumped-refl c h = record {
  inv = h;
  connection = refl;
  lane = refl;
  window = refl;
  closing = refl;
  kept = refl;
  room = omega arith;
  lane_room = λ l. omega arith;
}

pub Pumped-trans : (a b c : Controller) → Pumped a b → Pumped b c → Pumped a c
Pumped-trans a b c p q = record {
  inv = q.inv;
  connection = q.connection ∙ p.connection;
  lane = q.lane ∙ p.lane;
  window = q.window ∙ p.window;
  closing = q.closing ∙ p.closing;
  kept = q.kept ∙ p.kept;
  room = omega (arith, p.room, q.room, p.connection);
  lane_room = λ l. omega (arith, p.lane_room l, q.lane_room l, p.lane);
}

-- A lane that is passed over goes to the end of the list.
abbrev pub rotated : Controller → ℕ → List ℕ → Controller
rotated c lane rest = record c { ready = rest ++ (lane ∷ []) }

pub rotated-Pumped :
    (c : Controller) (lane : ℕ) (rest : List ℕ)
    → Inv c
    → c.ready ≡ lane ∷ rest
    → Pumped c (rotated c lane rest)
rotated-Pumped c lane rest h turn = record {
  inv = record {
    unique_active = h.unique_active;
    unique_queues = h.unique_queues;
    active = h.active;
    queued = h.queued;
    counted = h.counted;
    once = h.once;
    fresh = h.fresh;
    listed = λ l. omega (arith, count-snoc l lane rest, ap (count l) turn, h.listed l);
  };
  connection = refl;
  lane = refl;
  window = refl;
  closing = refl;
  kept = refl;
  room = omega arith;
  lane_room = λ l. omega arith;
}

grant-Pumped :
    (c : Controller) (lane w : ℕ) (q : LaneQueue) (rest ws : List ℕ)
    → Inv c
    → lookup lane c.queues ≡ some q
    → q.waiters ≡ w ∷ ws
    → c.ready ≡ lane ∷ rest
    → c.active_total < c.connection_limit
    → active_on c lane < c.lane_limit
    → Pumped c (grant c lane q rest w ws)
grant-Pumped c lane w q rest ws h found front turn free below = record {
  inv = grant-Inv c lane w q rest ws h found front turn;
  connection = counts.2;
  lane = counts.3;
  window = counts.5;
  closing = counts.4;
  kept = omega (arith, counts, waits c lane w q rest ws h found front turn);
  room = omega (arith, counts, free);
  lane_room = λ l. elim (Bool-cases (lane == l)) [
    | inl e ↦ omega (arith, below, under l e, ap (active_on c) ((==_iff lane l).0 e))
    | inr e ↦ omega (arith, other l e)
  ];
}
  where
    c' : Controller
    c' = grant c lane q rest w ws

    counts :
        (c'.active_total ≡ c.active_total + 1)
        × (c'.queued_total ≡ c.queued_total - 1)
        × (c'.connection_limit ≡ c.connection_limit)
        × (c'.lane_limit ≡ c.lane_limit)
        × (c'.closed ≡ c.closed)
        × (c'.lane_window_limit ≡ c.lane_window_limit)
    counts = grant-counts c lane w q rest ws h found front turn

    under : (l : ℕ) → (lane == l) ≡ true → active_on c' l ≡ active_on c lane + 1
    under l e = rw (
      grant-active_by_lane c lane w q rest ws h found front turn,
      lookup-insert lane l (active_on c lane + 1) c.active_by_lane,
      e,
    )

    other : (l : ℕ) → (lane == l) ≡ false → active_on c' l ≡ active_on c l
    other l e = rw (
      grant-active_by_lane c lane w q rest ws h found front turn,
      lookup-insert lane l (active_on c lane + 1) c.active_by_lane,
      e,
    )

-- What a visit of the lane in front does when the connection has a credit: the lane is at its limit and
-- goes to the end, or its first waiter gets a credit.
abbrev pub Visited : Controller → ℕ → List ℕ → Visit → Type 0
Visited c lane rest v =
    ((v ≡ skip (rotated c lane rest)) × (c.lane_limit ≤ active_on c lane))
    ⊎ ((c' : Controller) × (v ≡ grants c') × Pumped c c' × (c'.queued_total + 1 ≡ c.queued_total))

waiters-cases : (q : LaneQueue) → IsQueue q → (w : ℕ) × (ws : List ℕ) × (q.waiters ≡ w ∷ ws)
waiters-cases q p = split q.waiters refl
  where
    split : (xs : List ℕ) → q.waiters ≡ xs → (w : ℕ) × (ws : List ℕ) × (q.waiters ≡ w ∷ ws)
    split [] e = absurd (omega (arith, p, ap length e))
    split (w ∷ ws) e = (w, ws, e)

pub visit-Visited :
    (c : Controller) (lane : ℕ) (rest : List ℕ)
    → Inv c
    → c.ready ≡ lane ∷ rest
    → c.active_total < c.connection_limit
    → Visited c lane rest (visit c lane rest)
unfolding visit
visit-Visited c lane rest h turn free = elim (Option-cases (lookup lane c.queues)) [
  | inl e ↦
      absurd
        (omega (arith, h.listed lane, ap (weight_at one) e, ap (count lane) turn, same_self lane))
  | inr (q, found) ↦
      let p = AllValues-lookup IsQueue lane q c.queues h.counted found in
      let pending : (not q.ready || q.waiting == 0) ≡ false = ground (arith, p) in
      let (w, ws, front) = waiters-cases q p in
      (elim (Bool-cases (leb c.lane_limit (active_on c lane))) [
        | inl at_limit ↦ inl (rw (visit, found, pending, at_limit), leb→le _ _ at_limit)
        | inr below ↦ inr (
          grant c lane q rest w ws,
          rw (visit, found, pending, below, take_waiter-head c lane w q ws h found front),
          grant-Pumped c lane w q rest ws h found front turn free (ground (arith, below)),
          omega (
            arith,
            grant-counts c lane w q rest ws h found front turn,
            waits c lane w q rest ws h found front turn,
          ),
        )
      ])
]
