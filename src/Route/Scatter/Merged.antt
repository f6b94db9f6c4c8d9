-- ===== src/Route/Scatter/Merged.antt =====
-- A scattered MGET gives what each key's shard holds, at the key's position.
use ferricstore_go.Base.{
  ℕ, zero, suc, ◌≤◌, ◌≡◌, refl, ap, sym, subst, ◌∙◌, List, [], ◌∷◌, take, drop, length, get_elem?,
  Bool, true, Option, none, some, Result, ok, ◌>>=◌, >>=-eq_ok, ltb, Bool-cases, ◌⊎◌, inl, inr,
  arith, All,
}
use mathlib.Core.Option.{map as map_option}
use ferricstore_go.Base.Bytes.{Bytes}
use ferricstore_go.Base.Dict.{lookup}
use ferricstore_go.Route.Plan.{
  PlanError, Route, Topology, Identity, identity_eq, Group, route_identity, route_string_key,
  validate, find_divergence, single_route, plan_from, plan_routes,
}
use ferricstore_go.Route.Grouping.{find_divergence-Diverges, ok_values}
use ferricstore_go.Route.Scatter.{Values, run_tasks, first_error, scatter_mget}
use ferricstore_go.Route.Scatter.Placing.{member, Aligned, Placed, Covered}
use ferricstore_go.Route.Scatter.Gather.{due, Answers, holds, run_tasks-due}
use ferricstore_go.Route.Scatter.Planned.{Divided, after-Divided, plan_from-places}

module _ {E : Type 0} (endpoint_name : E → Bytes) (valid : E → Bool)
    (topology : Option (Topology E)) where
  Divided-places :
      (first : Route E) (keys : List Bytes) (groups : List (Identity × Group E))
      → Divided endpoint_name valid topology first keys groups
      → Placed keys groups × Covered (length keys) groups
  unfolding Divided
  Divided-places first keys groups (before, (key, (behind, (whole, (other, planned))))) =
      subst (λ l. Placed l groups × Covered (length l) groups) (sym whole)
        (plan_from-places endpoint_name valid topology first before key behind groups other planned)

  plan_routes-places :
      (keys : List Bytes) (first : Route E) (groups : List (Identity × Group E))
      → plan_routes endpoint_name valid topology true keys ≡ ok (first, some groups)
      → Placed keys groups × Covered (length keys) groups
  unfolding plan_routes single_route
  plan_routes-places [] first groups e = absurd cc
  plan_routes-places (k ∷ ks) first groups e =
      let ((first1, found), single, e1) =
        >>=-eq_ok (single_route endpoint_name valid topology (k ∷ ks)) (go_on k ks) e in
      let (r, routed, e2) =
        >>=-eq_ok (route_string_key endpoint_name valid topology k) (checked ks) single in
      let (first2, allowed, e3) = >>=-eq_ok (validate endpoint_name valid r) (searched ks) e2 in
      let (found2, searches, e4) =
        >>=-eq_ok
          (find_divergence endpoint_name valid topology (route_identity endpoint_name valid first2)
            1 ks)
          (λ found. ok (first2, found)) e3 in
      let pair : (first2, found2) ≡ (first1, found) =
        ok_values (ok (first2, found2)) (first2, found2) (first1, found) refl e4 in
      Divided-places first2 (k ∷ ks) groups (
        after-Divided endpoint_name valid topology first2 k ks found2 (first, some groups) groups
          (find_divergence-Diverges endpoint_name valid topology
            (route_identity endpoint_name valid first2) 1 ks found2 searches)
          (ap (go_on k ks) pair ∙ e1) refl)
    where
      go_on :
          Bytes
          → List Bytes
          → Route E × Option ℕ
          → Result PlanError (Route E × Option (List (Identity × Group E)))
      go_on k ks (first, found) = elim found [
        | none ↦ ok (first, none)
        | some d ↦
            plan_from endpoint_name valid topology true first d (take d (k ∷ ks)) (drop d (k ∷ ks))
            >>= λ groups. ok (first, some groups)
      ]

      searched : List Bytes → Route E → Result PlanError (Route E × Option ℕ)
      searched ks first =
          find_divergence endpoint_name valid topology (route_identity endpoint_name valid first) 1
            ks
          >>= λ found. ok (first, found)

      checked : List Bytes → Route E → Result PlanError (Route E × Option ℕ)
      checked ks r = validate endpoint_name valid r >>= searched ks

get_elem?-beyond : (keys : List Bytes) (p : ℕ) → length keys ≤ p → get_elem? keys p ≡ none
get_elem?-beyond [] p h = refl
get_elem?-beyond (k ∷ keys) zero h = absurd (omega (arith, h))
get_elem?-beyond (k ∷ keys) (suc p) h = get_elem?-beyond keys p (omega (arith, h))

-- The tasks are made for the groups, in any order.
abbrev pub Among : {E : Type 0} → Group E → List (Group E) → Type 0
Among g [] = ⊥
Among g (h ∷ tasks) = (h ≡ g) ⊎ Among g tasks

abbrev pub TasksOf : {E : Type 0} → List (Identity × Group E) → List (Group E) → Type 0
TasksOf {E} groups tasks =
    All (λ g. (i : Identity) × (lookup i groups ≡ some g)) tasks
    × ((i : Identity) (g : Group E) → lookup i groups ≡ some g → Among g tasks)

module _ {V E X : Type 0} (value_of : Bytes → V) (keys : List Bytes)
    (answer : Group E → Result X (List V)) (malformed : X) where
  holds-Among :
      (p : ℕ) (g : Group E) (tasks : List (Group E))
      → Among g tasks
      → member p g.positions ≡ true
      → holds value_of keys answer malformed p tasks ≡ true
  holds-Among p g [] no_task within = absurd no_task
  holds-Among p g (h ∷ tasks) (inl same) within =
      rw (subst (λ x. member p x.positions ≡ true) (sym same) within) refl
  holds-Among p g (h ∷ tasks) (inr later) within =
      rw (holds-Among p g tasks later within) (ground arith)

  answered :
      (groups : List (Identity × Group E)) (tasks : List (Group E))
      → Placed keys groups
      → All (λ g. (i : Identity) × (lookup i groups ≡ some g)) tasks
      → All (Answers value_of keys answer malformed) tasks
      → All (λ g. Aligned keys g × Answers value_of keys answer malformed g) tasks
  answered groups [] placed _ _ = tt
  answered groups (g ∷ tasks) placed ((i, here), others) (answers, rest) =
      ((placed i g here, answers), answered groups tasks placed others rest)

  placed_or_beyond :
      (groups : List (Identity × Group E)) (tasks : List (Group E))
      → Covered (length keys) groups
      → ((i : Identity) (g : Group E) → lookup i groups ≡ some g → Among g tasks)
      → (p : ℕ)
      → (◌≡◌ {A = Option V} none (due value_of keys p))
        ⊎ (holds value_of keys answer malformed p tasks ≡ true)
  placed_or_beyond groups tasks covered all_run p = elim (Bool-cases (ltb p (length keys))) [
    | inl within ↦
        let (i, (g, (here, at_place))) = covered p (ground (arith, within)) in
        inr (holds-Among p g tasks (all_run i g here) at_place)
    | inr beyond ↦
        inl (sym (ap (map_option value_of) (get_elem?-beyond keys p (ground (arith, beyond)))))
  ]

-- Where a plan has several groups, the tasks are those of its groups in some order, and each group's shard answers
-- with the values of its keys, the MGET succeeds, and the value at each position is that of the key there;
-- behind the last key nothing is written.
pub scatter_mget-values :
    {E V X : Type 0} (endpoint_name : E → Bytes) (valid : E → Bool) (topology : Option (Topology E))
    (value_of : Bytes → V) (answer : Group E → Result X (List V)) (malformed : X)
    (keys : List Bytes) (first : Route E) (groups : List (Identity × Group E))
    (tasks : List (Group E))
    → plan_routes endpoint_name valid topology true keys ≡ ok (first, some groups)
    → TasksOf groups tasks
    → All (Answers value_of keys answer malformed) tasks
    → (values : Values V) × ((scatter_mget answer malformed tasks ≡ ok values)
        × ((p : ℕ) → values p ≡ map_option value_of (get_elem? keys p)))
unfolding scatter_mget
scatter_mget-values {V} {X} endpoint_name valid topology value_of answer malformed keys first groups
      tasks plan (ours, all_run) answers =
    let (placed, covered) =
      plan_routes-places endpoint_name valid topology keys first groups plan in
    let right = answered value_of keys answer malformed groups tasks placed ours answers in
    let reached = placed_or_beyond value_of keys answer malformed groups tasks covered all_run in
    let run = λ (p : ℕ).
      run_tasks-due value_of keys answer malformed tasks (λ q. none) p right (reached p) in
    (
      (run_tasks answer malformed tasks ((λ q. none), [])).0,
      (no_errors (run_tasks answer malformed tasks ((λ q. none), [])) (run 0).0, λ p. (run p).1),
    )
  where
    no_errors :
        (state : Values V × List X) → state.1 ≡ [] → first_error answer malformed state ≡ ok state.0
    no_errors (values, []) h = refl
    no_errors (values, e ∷ errors) h = absurd cc
