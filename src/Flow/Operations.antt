-- ===== src/Flow/Operations.antt =====
-- `release` and `updateLimits` of the flow controller: they keep the invariant, and what they do to the
-- counts.
use ferricstore_go.Base.{
  ℕ, ◌+◌, ◌-◌, ◌≤◌, ◌≡◌, false, Option, none, Option-cases, Bool-cases, inl, inr, subst, min, max,
  ◌==◌, ==_iff, if◌then◌else◌, arith,
}
use ferricstore_go.Base.Dict.{
  nat_eq, lookup, insert, delete, Unique, insert-Unique, delete-Unique, weight_at-le, total,
  total-insert, total-delete,
}
use ferricstore_go.Flow.Controller.{
  Controller, active_on, release, pump, pump_if_open, update_limits, limit_or,
}
use ferricstore_go.Flow.Invariant.{Inv, id, count_of-weight}
use ferricstore_go.Flow.Visit.{Pumped, Pumped-refl}
use ferricstore_go.Flow.Pump.{Exhausted, Stops, pump-ends}

-- The number of requests that have a credit or wait for one.
abbrev pub load : Controller → ℕ
load c = c.active_total + c.queued_total

pub pump_if_open-ends :
    (c : Controller)
    → Inv c
    → Pumped c (pump_if_open c) × (c.closed ≡ none → Exhausted (pump_if_open c))
pump_if_open-ends c h = elim (Option-cases c.closed) [
  | inl e ↦
      let (p, ends) = pump-ends c h in
      let exhausted : Exhausted (pump c) = subst (λ o. Stops c o (pump c)) e ends in
      simp (pump_if_open, e) (p, λ _. exhausted)
  | inr (x, e) ↦ simp (pump_if_open, e) (Pumped-refl c h, λ no. absurd cc)
]

-- The controller when a credit of the lane is back, before the pump.
abbrev pub returned : Controller → ℕ → Controller
returned c lane = record c {
  active_total = c.active_total - 1;
  active_by_lane =
      if active_on c lane == 1
      then delete lane c.active_by_lane
      else insert lane (active_on c lane - 1) c.active_by_lane;
}

returned-total :
    (c : Controller) (lane : ℕ)
    → Inv c
    → 1 ≤ active_on c lane
    → total id (returned c lane).active_by_lane + 1 ≡ total id c.active_by_lane
returned-total c lane h some_active = elim (Bool-cases (active_on c lane == 1)) [
  | inl last ↦ rw last (
      omega (
        arith,
        (==_iff (active_on c lane) 1).0 last,
        total-delete id lane c.active_by_lane h.unique_active,
        count_of-weight (lookup lane c.active_by_lane),
      ))
  | inr more ↦ rw more (
      omega (
        arith,
        some_active,
        total-insert id lane (active_on c lane - 1) c.active_by_lane,
        count_of-weight (lookup lane c.active_by_lane),
      ))
]

pub returned-Inv :
    (c : Controller) (lane : ℕ) → Inv c → 1 ≤ active_on c lane → Inv (returned c lane)
returned-Inv c lane h some_active = record {
  unique_active = still_unique;
  unique_queues = h.unique_queues;
  active = omega (arith, returned-total c lane h some_active, h.active);
  queued = h.queued;
  counted = h.counted;
  once = h.once;
  fresh = h.fresh;
  listed = h.listed;
}
  where
    still_unique : Unique (returned c lane).active_by_lane
    still_unique = elim (Bool-cases (active_on c lane == 1)) [
      | inl last ↦ rw last (delete-Unique lane c.active_by_lane h.unique_active)
      | inr more ↦
          rw more (insert-Unique lane (active_on c lane - 1) c.active_by_lane h.unique_active)
    ]

-- A release on a lane with an active request keeps the controller well-formed and takes exactly one request
-- out of it, and while the controller is open no credit stays unused: afterwards the connection is full, or
-- every lane that has waiters is at its limit.
pub release-ends :
    (c : Controller) (lane : ℕ)
    → Inv c
    → 1 ≤ active_on c lane
    → Inv (release c lane)
      × (load (release c lane) + 1 ≡ load c)
      × (c.closed ≡ none → Exhausted (release c lane))
unfolding release
release-ends c lane h some_active =
    let not_none : (active_on c lane == 0) ≡ false = ground (arith, some_active) in
    let (p, ends) = pump_if_open-ends (returned c lane) (returned-Inv c lane h some_active) in
    simp (release, not_none) (p.inv, omega (arith, p.kept, at_least), ends)
  where
    at_least : 1 ≤ c.active_total
    at_least = omega (
      arith,
      h.active,
      some_active,
      weight_at-le id lane c.active_by_lane,
      count_of-weight (lookup lane c.active_by_lane),
    )

-- A release on a lane without an active request changes nothing.
pub release-none : (c : Controller) (lane : ℕ) → active_on c lane ≡ 0 → release c lane ≡ c
unfolding release
release-none c lane none_active = simp none_active

-- The connection's limit and the window are those that are given, or as before where none is, and a lane's limit is
-- the smaller one of the window and of its queue's limit. A well-formed controller stays so, loses no request, gives no credit past the new limits,
-- and while it is open no credit stays unused under them.
pub update_limits-ends :
    (c : Controller) (connection lane : Option ℕ)
    → Inv c
    → let c' = update_limits c connection lane in
      (c'.connection_limit ≡ limit_or connection c.connection_limit)
      × (c'.lane_window_limit ≡ limit_or lane c.lane_window_limit)
      × (c'.lane_limit ≡ min (limit_or lane c.lane_window_limit) c.lane_queue_limit)
      × Inv c'
      × (load c' ≡ load c)
      × (c'.active_total ≤ max c.active_total c'.connection_limit)
      × ((l : ℕ) → active_on c' l ≤ max (active_on c l) c'.lane_limit)
      × (c.closed ≡ none → Exhausted c')
unfolding update_limits
update_limits-ends c connection lane h =
    let (p, ends) = pump_if_open-ends limited limited-Inv in
    (
      p.connection,
      p.window,
      p.lane,
      p.inv,
      p.kept,
      omega (arith, p.room, p.connection),
      (λ l. omega (arith, p.lane_room l, p.lane)),
      ends,
    )
  where
    limited : Controller
    limited = record c {
      connection_limit = limit_or connection c.connection_limit;
      lane_window_limit = limit_or lane c.lane_window_limit;
      lane_limit = min (limit_or lane c.lane_window_limit) c.lane_queue_limit;
    }

    limited-Inv : Inv limited
    limited-Inv = record {
      unique_active = h.unique_active;
      unique_queues = h.unique_queues;
      active = h.active;
      queued = h.queued;
      counted = h.counted;
      once = h.once;
      fresh = h.fresh;
      listed = h.listed;
    }
