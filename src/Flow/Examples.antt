-- ===== src/Flow/Examples.antt =====
-- A connection with one credit: a request that has it, one that waits, and how they end.
use ferricstore_go.Base.{
  ℕ, ◌+◌, ◌≤◌, ◌≡◌, refl, none, some, [], min, max, ◌==◌, if◌then◌else◌, arith,
}
use ferricstore_go.Base.Dict.{nat_eq, lookup, insert}
use ferricstore_go.Flow.Controller.{
  Controller, failed, cancelled, connection_unavailable, new_controller, acquire, active_on,
  activate, can_acquire, limit_or, enqueue, release, update_limits, acquire_cancelled, close, pump,
}
use ferricstore_go.Flow.Invariant.{Inv, new_controller-Inv}
use ferricstore_go.Flow.Visit.{Pumped}
use ferricstore_go.Flow.Pump.{Exhausted, Stops, pump-ends}
use ferricstore_go.Flow.Acquire.{acquire-Inv}
use ferricstore_go.Flow.Admission.{Admission, acquire-Admission}
use ferricstore_go.Flow.Operations.{load, release-ends, update_limits-ends}
use ferricstore_go.Flow.Ending.{waits_on, acquire_cancelled-removes}
use ferricstore_go.Flow.Close.{close-fails, standing}
use ferricstore_go.Flow.Limits.{
  WithinLimits, Reachable, start, step, acquires, Reachable-WithinLimits,
}

abbrev idle : Controller
idle = new_controller (some 1) none none 4

abbrev busy : Controller
busy = (acquire idle none 5).0

abbrev crowded : Controller
crowded = (acquire busy none 5).0

idle-Inv : Inv idle
idle-Inv = new_controller-Inv (some 1) none none 4

busy-Inv : Inv busy
busy-Inv = acquire-Inv idle none 5 idle-Inv

crowded-Inv : Inv crowded
crowded-Inv = acquire-Inv busy none 5 busy-Inv

one_active : active_on crowded 5 ≡ 1
unfolding acquire can_acquire activate enqueue new_controller lookup insert
one_active = refl

one_waits : waits_on crowded 5 0 ≡ 1
unfolding acquire can_acquire activate enqueue new_controller lookup insert
one_waits = refl

still_live : crowded.closed ≡ none
unfolding acquire can_acquire activate enqueue new_controller lookup insert
still_live = refl

pump-ends_example : Pumped crowded (pump crowded) × Stops crowded crowded.closed (pump crowded)
pump-ends_example = pump-ends crowded crowded-Inv

acquire-Admission_example :
    Inv (acquire busy none 5).0 × Admission busy none 5 (acquire busy none 5)
acquire-Admission_example = acquire-Admission busy none 5 busy-Inv

release-ends_example :
    Inv (release crowded 5)
    × (load (release crowded 5) + 1 ≡ load crowded)
    × (crowded.closed ≡ none → Exhausted (release crowded 5))
release-ends_example = release-ends crowded 5 crowded-Inv (omega (arith, one_active))

update_limits-ends_example :
    let c' = update_limits crowded (some 2) none in
    (c'.connection_limit ≡ limit_or (some 2) crowded.connection_limit)
    × (c'.lane_window_limit ≡ limit_or none crowded.lane_window_limit)
    × (c'.lane_limit ≡ min (limit_or none crowded.lane_window_limit) crowded.lane_queue_limit)
    × Inv c'
    × (load c' ≡ load crowded)
    × (c'.active_total ≤ max crowded.active_total c'.connection_limit)
    × ((l : ℕ) → active_on c' l ≤ max (active_on crowded l) c'.lane_limit)
    × (crowded.closed ≡ none → Exhausted c')
update_limits-ends_example = update_limits-ends crowded (some 2) none crowded-Inv

acquire_cancelled-removes_example :
    Inv (acquire_cancelled crowded 5 0)
    × (load (acquire_cancelled crowded 5 0) + 1 ≡ load crowded)
    × (lookup 0 (acquire_cancelled crowded 5 0).settled ≡ some cancelled)
acquire_cancelled-removes_example =
    acquire_cancelled-removes crowded 5 0 crowded-Inv (omega (arith, one_waits))

close-fails_example :
    let c' = close crowded connection_unavailable in
    Inv c'
    × (c'.closed ≡ some connection_unavailable)
    × (c'.queues ≡ [])
    × (c'.ready ≡ [])
    × (c'.queued_total ≡ 0)
    × (c'.active_total ≡ crowded.active_total)
    × (c'.active_by_lane ≡ crowded.active_by_lane)
    × ((w : ℕ)
        → lookup w c'.settled ≡ (
            if standing crowded w == 0
            then lookup w crowded.settled
            else some (failed connection_unavailable)))
    × ((lane w : ℕ)
        → 1 ≤ waits_on crowded lane w
        → lookup w c'.settled ≡ some (failed connection_unavailable))
close-fails_example = close-fails crowded connection_unavailable crowded-Inv still_live

idle-WithinLimits : WithinLimits idle
unfolding new_controller lookup
idle-WithinLimits = (omega arith, λ l. omega arith)

crowded-Reachable : Reachable idle crowded
crowded-Reachable =
    step busy crowded (step idle busy start (acquires idle none 5)) (acquires busy none 5)

Reachable-WithinLimits_example : Inv crowded × WithinLimits crowded
Reachable-WithinLimits_example =
    Reachable-WithinLimits idle crowded idle-Inv idle-WithinLimits crowded-Reachable
