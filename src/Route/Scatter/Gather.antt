-- ===== src/Route/Scatter/Gather.antt =====
-- What the tasks of a scattered MGET leave in the slice of values.
use ferricstore_go.Base.{
  ℕ, ◌≡◌, refl, ap, sym, ◌∙◌, List, [], ◌∷◌, map, length, length-map, get_elem?, Bool, true, false,
  ◌||◌, Option, some, Result, ok, ◌==◌, ==_iff, Bool-cases, ◌⊎◌, inl, inr, All,
}
use mathlib.Core.Option.{map as map_option}
use ferricstore_go.Base.Bytes.{Bytes}
use ferricstore_go.Route.Plan.{Group}
use ferricstore_go.Route.Scatter.{Values, put_value, fill, run_tasks}
use ferricstore_go.Route.Scatter.Placing.{member, Aligned}

module _ {V : Type 0} (value_of : Bytes → V) (keys : List Bytes) where
  -- The value of the key at a position.
  abbrev pub due : ℕ → Option V
  due p = map_option value_of (get_elem? keys p)

  -- A task whose items are its keys' values writes each at a position of that key.
  fill-due :
      (ps : List ℕ) (ks : List Bytes) (values : Values V) (q : ℕ)
      → map (get_elem? keys) ps ≡ map some ks
      → (values q ≡ due q) ⊎ (member q ps ≡ true)
      → fill ps (map value_of ks) values q ≡ due q
  fill-due [] [] values q aligned (inl done) = done
  fill-due [] [] values q aligned (inr within) = absurd cc
  fill-due [] (k ∷ ks) values q aligned h = absurd cc
  fill-due (p ∷ ps) [] values q aligned h = absurd cc
  fill-due (p ∷ ps) (k ∷ ks) values q aligned h =
      fill-due ps ks (put_value p (value_of k) values) q (tail_injective aligned)
        (elim (Bool-cases (p == q)) [
          | inl here ↦ inl (
              rw here (
                ap (map_option value_of)
                  (sym (ap (get_elem? keys) (sym ((==_iff p q).0 here)) ∙ head_injective aligned))))
          | inr away ↦ elim h [
            | inl done ↦ inl (rw away done)
            | inr within ↦ inr (rw away at within)
          ]
        ])
    where
      head_injective :
          {a b : Option Bytes} {xs ys : List (Option Bytes)} → (a ∷ xs) ≡ (b ∷ ys) → a ≡ b
      head_injective e = cc

      tail_injective :
          {a b : Option Bytes} {xs ys : List (Option Bytes)} → (a ∷ xs) ≡ (b ∷ ys) → xs ≡ ys
      tail_injective e = cc

  module _ {E X : Type 0} (answer : Group E → Result X (List V)) (malformed : X) where
    -- The shard of a group answers with the values of its keys.
    abbrev pub Answers : Group E → Type 0
    Answers g = answer g ≡ ok (map value_of g.keys)

    abbrev pub holds : ℕ → List (Group E) → Bool
    holds q [] = false
    holds q (g ∷ gs) = member q g.positions || holds q gs

    pub run_tasks-due :
        (tasks : List (Group E)) (values : Values V) (q : ℕ)
        → All (λ g. Aligned keys g × Answers g) tasks
        → (values q ≡ due q) ⊎ (holds q tasks ≡ true)
        → ((run_tasks answer malformed tasks (values, [])).1 ≡ [])
          × ((run_tasks answer malformed tasks (values, [])).0 q ≡ due q)
    unfolding run_tasks
    run_tasks-due [] values q all (inl done) = (refl, done)
    run_tasks-due [] values q all (inr within) = absurd cc
    run_tasks-due (g ∷ gs) values q ((aligned, answers), all) h =
        rw (run_tasks, answers, counted)
          (run_tasks-due gs (fill g.positions (map value_of g.keys) values) q all (elim h [
            | inl done ↦ inl (written (inl done))
            | inr somewhere ↦ elim (Bool-cases (member q g.positions)) [
              | inl here ↦ inl (written (inr here))
              | inr later ↦ inr (rw later at somewhere)
            ]
          ]))
      where
        counted : (length (map value_of g.keys) == length g.positions) ≡ true
        counted = (==_iff _ _).1 (
            length-map g.keys value_of
            ∙ sym (length-map g.keys some)
            ∙ sym (ap length aligned)
            ∙ length-map g.positions (get_elem? keys))

        written :
            (values q ≡ due q) ⊎ (member q g.positions ≡ true)
            → fill g.positions (map value_of g.keys) values q ≡ due q
        written = fill-due g.positions g.keys values q aligned
