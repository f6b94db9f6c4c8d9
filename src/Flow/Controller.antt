-- ===== src/Flow/Controller.antt =====
-- `nativeFlowController` of native_limits.go: at most so many requests on a connection and on each of
-- its lanes, and queues of waiters behind them. A method is one critical section under `f.mu`; the
-- part of `acquire` behind the `select` is `acquire_ready` or `acquire_cancelled`.
-- A waiter is a number, and a queue the list of its waiters from head to tail: `waiter.queue` is the
-- lane's queue exactly while the waiter is in that list. An element of `f.ready` is its lane, and
-- `queue.ready` says whether the queue has one.
use ferricstore_go.Base.{
  ℕ, zero, suc, ◌+◌, ◌-◌, min, Bool, true, false, ◌&&◌, ◌||◌, not, List, [], ◌∷◌, ◌++◌, length,
  Option, none, some, ltb, leb, ◌==◌, if◌then◌else◌,
}
use ferricstore_go.Base.Dict.{nat_eq, lookup, insert, delete}

pub data FlowError : Type 0 where
  context_done lane_queue_closed no_inflight_credit client_queue_full : FlowError
  connection_unavailable : FlowError
  closed_by : ℕ → FlowError

pub data Outcome : Type 0 where
  granted cancelled : Outcome
  failed : FlowError → Outcome

pub record LaneQueue : Type 0 where
  pub waiters : List ℕ
  pub waiting : ℕ
  pub ready : Bool

pub record Controller : Type 0 where
  pub connection_limit : ℕ
  pub lane_window_limit : ℕ
  pub lane_queue_limit : ℕ
  pub lane_limit : ℕ
  pub max_queued : ℕ
  pub active_total : ℕ
  pub active_by_lane : List (ℕ × ℕ)
  pub queues : List (ℕ × LaneQueue)
  pub ready : List ℕ
  pub queued_total : ℕ
  pub closed : Option FlowError
  -- The waiters that are settled, and the next waiter's number.
  pub settled : List (ℕ × Outcome)
  pub next_waiter : ℕ

-- `newNativeFlowController`; `none` stands for a negative limit, `max_queued` is already bounded.
abbrev pub limit_or : Option ℕ → ℕ → ℕ
limit_or none d = d
limit_or (some n) d = n

unfoldable pub new_controller : Option ℕ → Option ℕ → Option ℕ → ℕ → Controller
new_controller connection lane queue max_queued = record {
  connection_limit = limit_or connection 4096;
  lane_window_limit = limit_or lane 1024;
  lane_queue_limit = limit_or queue 1024;
  lane_limit = min (limit_or lane 1024) (limit_or queue 1024);
  max_queued = max_queued;
  active_total = 0;
  active_by_lane = [];
  queues = [];
  ready = [];
  queued_total = 0;
  closed = none;
  settled = [];
  next_waiter = 0;
}

abbrev pub count_of : Option ℕ → ℕ
count_of none = 0
count_of (some n) = n

-- `f.activeByLane[lane]`
abbrev pub active_on : Controller → ℕ → ℕ
active_on c lane = count_of (lookup lane c.active_by_lane)

unfoldable pub can_acquire : Controller → ℕ → Bool
can_acquire c lane = ltb c.active_total c.connection_limit && ltb (active_on c lane) c.lane_limit

unfoldable pub activate : Controller → ℕ → Controller
activate c lane = record c {
  active_total = c.active_total + 1;
  active_by_lane = insert lane (active_on c lane + 1) c.active_by_lane;
}

abbrev pub remove_from : ℕ → List ℕ → List ℕ
remove_from x [] = []
remove_from x (y ∷ ys) = if y == x then ys else y ∷ remove_from x ys

abbrev pub contains : ℕ → List ℕ → Bool
contains x [] = false
contains x (y ∷ ys) = y == x || contains x ys

unfoldable pub remove_lane_queue : Controller → ℕ → LaneQueue → Controller
remove_lane_queue c lane q = record c {
  ready = if q.ready then remove_from lane c.ready else c.ready;
  queues = delete lane c.queues;
}

abbrev pub is_settled : Controller → ℕ → Bool
is_settled c w = elim (lookup w c.settled) [ none ↦ false | some o ↦ true ]

-- `takeWaiterLocked`: the first waiter that is not settled, and the list behind it.
unfoldable pub take_waiter : Controller → List ℕ → Option (ℕ × List ℕ)
take_waiter c [] = none
take_waiter c (w ∷ ws) =
    let rest = take_waiter c ws in if is_settled c w then rest else some (w, ws)

-- The grant of a credit to the waiter in front; the queue goes when it was the last one.
unfoldable pub grant : Controller → ℕ → LaneQueue → List ℕ → ℕ → List ℕ → Controller
grant c lane q rest w ws =
    let q' = record q { waiters = ws; waiting = q.waiting - 1 } in
    let c' = record c { queued_total = c.queued_total - 1; queues = insert lane q' c.queues } in
    let c'' =
      if q.waiting - 1 == 0
      then remove_lane_queue c' lane q'
      else record c' { ready = rest ++ (lane ∷ []) } in
    activate (record c'' { settled = insert w granted c.settled }) lane

-- What happens to the lane in front of `f.ready`.
pub data Visit : Type 0 where
  skip grants : Controller → Visit

unfoldable pub visit : Controller → ℕ → List ℕ → Visit
visit c lane rest = elim (lookup lane c.queues) [
  | none ↦ skip (record c { ready = rest })
  | some q ↦
      if not q.ready || q.waiting == 0
      then skip (record c { ready = rest })
      else if leb c.lane_limit (active_on c lane)
      then skip (record c { ready = rest ++ (lane ∷ []) })
      else (elim (take_waiter c q.waiters) [
        | none ↦ skip (remove_lane_queue c lane q)
        | some (w, ws) ↦ grants (grant c lane q rest w ws)
      ])
]

-- The inner loop of `pumpLocked`, `attempts` lanes long at most; whether it granted a credit.
unfoldable pub pump_round : ℕ → Controller → Controller × Bool
pump_round zero c = (c, false)
pump_round (suc attempts) c =
    if leb c.connection_limit c.active_total then (c, false) else (elim c.ready [
      | [] ↦ (c, false)
      | lane ∷ rest ↦ elim (visit c lane rest) [
        | skip c' ↦ pump_round attempts c'
        | grants c' ↦ (c', true)
      ]
    ])

abbrev pub is_closed : Controller → Bool
is_closed c = elim c.closed [ none ↦ false | some e ↦ true ]

-- The condition of the outer loop, negated.
abbrev pub pump_stops : Controller → Bool
pump_stops c = is_closed c || (leb c.connection_limit c.active_total || length c.ready == 0)

-- The outer loop; it goes on after each grant.
unfoldable pub pump_loop : ℕ → Controller → Controller
pump_loop zero c = c
pump_loop (suc fuel) c =
    let (c', more) = pump_round (length c.ready) c in
    let rest = pump_loop fuel c' in if pump_stops c then c else (if more then rest else c')

-- A grant takes a waiter out, so as many rounds as there are waiters, and one more, are enough.
unfoldable pub pump : Controller → Controller
pump c = pump_loop (c.queued_total + 1) c

abbrev pub pump_if_open : Controller → Controller
pump_if_open c = elim c.closed [ none ↦ pump c | some e ↦ c ]

pub data Acquired : Type 0 where
  refused : FlowError → Acquired
  acquired : Acquired
  waiting_as : ℕ → Acquired

-- The queue that a new waiter joins.
abbrev pub queue_or_new : Option LaneQueue → LaneQueue
queue_or_new none = record { waiters = []; waiting = 0; ready = false }
queue_or_new (some q) = q

unfoldable pub enqueue : Controller → ℕ → Controller
enqueue c lane =
    let q = queue_or_new (lookup lane c.queues) in
    record c {
      queues =
          insert lane
            (record {
              waiters = q.waiters ++ (c.next_waiter ∷ []);
              waiting = q.waiting + 1;
              ready = true;
            })
            c.queues;
      queued_total = c.queued_total + 1;
      ready = if q.ready then c.ready else c.ready ++ (lane ∷ []);
      next_waiter = c.next_waiter + 1;
    }

-- `acquire` up to the `select`; `context_error` is what `requestContextError(ctx)` returned.
unfoldable pub acquire : Controller → Option FlowError → ℕ → Controller × Acquired
acquire c (some e) lane = (c, refused e)
acquire c none lane = elim c.closed [
  | some e ↦ (c, refused e)
  | none ↦
      if c.lane_queue_limit == 0
      then (c, refused lane_queue_closed)
      else if c.connection_limit == 0 || c.lane_limit == 0
      then (c, refused no_inflight_credit)
      else if can_acquire c lane
      then (activate c lane, acquired)
      else if leb c.max_queued c.queued_total
      then (c, refused client_queue_full)
      else (enqueue c lane, waiting_as c.next_waiter)
]

-- `release`
unfoldable pub release : Controller → ℕ → Controller
release c lane =
    let active = active_on c lane in
    if active == 0
    then c
    else pump_if_open (record c {
      active_total = c.active_total - 1;
      active_by_lane =
          if active == 1
          then delete lane c.active_by_lane
          else insert lane (active - 1) c.active_by_lane;
    })

-- `case <-waiter.ready`
unfoldable pub acquire_ready : Controller → ℕ → Option FlowError
acquire_ready c w = elim (lookup w c.settled) [
  | some granted ↦ none
  | some (failed e) ↦ some e
  | _ ↦ some connection_unavailable
]

unfoldable pub remove_queued_waiter : Controller → ℕ → ℕ → Controller
remove_queued_waiter c lane w = elim (lookup lane c.queues) [
  | none ↦ c
  | some q ↦
      if not (contains w q.waiters) || q.waiting == 0
      then c
      else (let q' = record q { waiters = remove_from w q.waiters; waiting = q.waiting - 1 } in
          let c' = record c {
            queues = insert lane q' c.queues;
            queued_total = c.queued_total - 1;
          } in
          if q.waiting - 1 == 0 then remove_lane_queue c' lane q' else c')
]

-- `case <-ctx.Done()`: a waiter that is settled already gives its credit back.
unfoldable pub acquire_cancelled : Controller → ℕ → ℕ → Controller
acquire_cancelled c lane w = elim (lookup w c.settled) [
  | none ↦ remove_queued_waiter (record c { settled = insert w cancelled c.settled }) lane w
  | some granted ↦ release c lane
  | some _ ↦ c
]

-- `updateLimits`; `none` stands for a nil pointer or a negative value.
unfoldable pub update_limits : Controller → Option ℕ → Option ℕ → Controller
update_limits c connection lane =
    let window = limit_or lane c.lane_window_limit in
    pump_if_open (record c {
      connection_limit = limit_or connection c.connection_limit;
      lane_window_limit = window;
      lane_limit = min window c.lane_queue_limit;
    })

abbrev pub fail_waiters : FlowError → List ℕ → List (ℕ × Outcome) → List (ℕ × Outcome)
fail_waiters e [] settled = settled
fail_waiters e (w ∷ ws) settled =
    fail_waiters e ws
      (elim (lookup w settled) [ some o ↦ settled | none ↦ insert w (failed e) settled ])

abbrev pub fail_queues : FlowError → List (ℕ × LaneQueue) → List (ℕ × Outcome) → List (ℕ × Outcome)
fail_queues e [] settled = settled
fail_queues e ((lane, q) ∷ qs) settled = fail_queues e qs (fail_waiters e q.waiters settled)

-- `close`; a nil error is replaced by the caller's default.
unfoldable pub close : Controller → FlowError → Controller
close c e = elim c.closed [
  | some _ ↦ c
  | none ↦ record c {
    closed = some e;
    settled = fail_queues e c.queues c.settled;
    queues = [];
    ready = [];
    queued_total = 0;
  }
]
