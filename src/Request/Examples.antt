-- ===== src/Request/Examples.antt =====
-- One caller on one connection: its request is written, and the server sends GOAWAY before it answers.
use ferricstore_go.Base.{ℕ, ◌+◌, ◌≡◌, ◌⊎◌, refl, [], ◌∷◌, true, false, none, some, ok, arith}
use ferricstore_go.Base.Dict.{nat_eq, lookup, insert}
use ferricstore_go.Frame.Response.{generic}
use ferricstore_go.Request.Executor.{
  Pending, install, handle_go_away, start_drain, close_if_idle, has_live_pending, admit_write,
  close,
}
use ferricstore_go.Request.Identifiers.{next_request_id, next_request_id-finds, add_pending, IsFree}
use ferricstore_go.Request.System.{
  System, Step, Reachable, start, step, registers, writes, installs, goes_away, new_system,
  new_pending, with_executor, moves, registered, waiting, answered,
}
use ferricstore_go.Request.Promises.{
  Awaits, StandsFor, Reachable-answers, Reachable-drains, close-answers,
}
use ferricstore_go.Request.Credits.{Reachable-credits, held, released, taken}
use ferricstore_go.Request.Refinement.{Life, Answers, view}
use ferricstore_go.Request.Steps.{Step-refines}

abbrev connected : System
connected = with_executor new_system (install new_system.executor 7 1 false)

abbrev called : System
called =
    moves connected (add_pending connected.executor 1 (new_pending 1 0x101 1 generic (some 1))) 1
      (registered 1 7)

abbrev written : System
written = moves called called.executor 1 (waiting 1 7)

abbrev draining : System
draining = with_executor written (handle_go_away written.executor 7)

first_id : next_request_id 2 connected.executor.pending connected.executor.next_id ≡ some 1
unfolding next_request_id install lookup
first_id = refl

calls : Step connected called
unfolding install lookup
calls = registers 1 0x101 1 generic (some 1) 7 1 refl first_id (omega arith)

admits : admit_write called.executor 7 ≡ ok 7
unfolding admit_write install add_pending
admits = refl

asks : Step called written
unfolding insert lookup
asks = writes 1 1 7 refl admits

connected-Reachable : Reachable new_system connected
connected-Reachable = step new_system connected start (installs 7 1 false refl)

called-Reachable : Reachable new_system called
called-Reachable = step connected called connected-Reachable calls

written-Reachable : Reachable new_system written
written-Reachable = step called written called-Reachable asks

draining-Reachable : Reachable new_system draining
draining-Reachable = step written draining written-Reachable (goes_away 7)

waits : lookup 1 draining.callers ≡ some (waiting 1 7)
unfolding insert lookup
waits = refl

drains : draining.executor.go_away ≡ true
unfolding handle_go_away start_drain close_if_idle has_live_pending install add_pending insert
drains = refl

running : draining.executor.is_closed ≡ false
unfolding handle_go_away start_drain close_if_idle has_live_pending install add_pending insert
running = refl

Reachable-answers_example : Awaits draining 1 1 7 ⊎ (answered 1 draining.executor ≡ 1)
Reachable-answers_example = Reachable-answers draining 1 1 7 draining-Reachable waits

Reachable-drains_example :
    (c : ℕ) × ((draining.executor.conn ≡ some c)
      × ((id : ℕ) × ((p : Pending) × ((lookup id draining.executor.pending ≡ some p)
              × ((p.abandoned ≡ false)
                  × (StandsFor draining p.channel id c
                      × (answered p.channel draining.executor ≡ 0)))))))
Reachable-drains_example = Reachable-drains draining draining-Reachable drains

close-answers_example : answered 1 (close draining.executor) ≡ 1
close-answers_example = close-answers draining 1 1 7 draining-Reachable running waits

Reachable-credits_example :
    held 1 1 draining.executor + released 1 1 draining.executor ≡ taken 1 1 draining-Reachable
Reachable-credits_example = Reachable-credits draining 1 1 draining-Reachable

Step-refines_example :
    Life (view called 1) (view written 1) × Answers (view written 1) (answered 1 written.executor)
Step-refines_example = Step-refines called written 1 called-Reachable asks

next_request_id-finds_example :
    (id : ℕ) × ((next_request_id 3 ((1, new_pending 1 0x101 1 generic none) ∷ []) 0 ≡ some id)
      × IsFree ((1, new_pending 1 0x101 1 generic none) ∷ []) id)
next_request_id-finds_example =
    next_request_id-finds 0 ((1, new_pending 1 0x101 1 generic none) ∷ []) (omega arith)
