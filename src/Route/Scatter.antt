-- ===== src/Route/Scatter.antt =====
-- MGET over the groups of a plan, `scatterStringMGet` of topology_scatter.go. What a group's shard answers, its
-- retry included, is an argument; the order of the groups is that in which the tasks run.
use ferricstore_go.Base.{
  ℕ, ◌+◌, ◌≡◌, Bool, true, false, ◌||◌, List, [], ◌∷◌, ◌++◌, length, Option, none, some, Result, ok,
  err, ◌==◌, if◌then◌else◌,
}
use ferricstore_go.Base.Bytes.{Bytes}
use ferricstore_go.Route.Plan.{Group}
pub mod Placing
pub mod Gather
pub mod Planned
pub mod Merged
pub mod Examples

-- A slice of values, nil where nothing is written, by position.
abbrev pub Values : Type 0 → Type 0
Values V = ℕ → Option V

abbrev pub put_value : {V : Type 0} → ℕ → V → Values V → Values V
put_value p v values = λ q. if p == q then some v else values q

-- The loop over `group.positions`.
abbrev pub fill : {V : Type 0} → List ℕ → List V → Values V → Values V
fill [] items values = values
fill (p ∷ ps) [] values = values
fill (p ∷ ps) (v ∷ vs) values = fill ps vs (put_value p v values)

module _ {E V X : Type 0} (answer : Group E → Result X (List V)) (malformed : X) where
  -- A task: what it writes, and the error it sends, if any.
  abbrev pub run_task_on : Group E → Result X (List V) → Values V × List X → Values V × List X
  run_task_on g (err e) (values, errors) = (values, errors ++ (e ∷ []))
  run_task_on g (ok items) (values, errors) =
      if length items == length g.positions
      then (fill g.positions items values, errors)
      else (values, errors ++ (malformed ∷ []))

  unfoldable pub run_tasks : List (Group E) → Values V × List X → Values V × List X
  run_tasks [] state = state
  run_tasks (g ∷ gs) state = run_tasks gs (run_task_on g (answer g) state)

  -- The first error, or the values.
  abbrev pub first_error : Values V × List X → Result X (Values V)
  first_error (values, []) = ok values
  first_error (values, e ∷ errors) = err e

  unfoldable pub scatter_mget : List (Group E) → Result X (Values V)
  scatter_mget tasks = first_error (run_tasks tasks ((λ p. none), []))
