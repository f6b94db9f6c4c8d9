-- ===== src/Route/Scatter/Examples.antt =====
-- An MGET of three keys on two nodes, whose tasks run in the other order.
use ferricstore_go.Base.{
  ℕ, ◌≡◌, refl, List, [], ◌∷◌, map, length, get_elem?, none, some, Result, ok, Bool-cases, inl, inr,
}
use mathlib.Core.Option.{map as map_option}
use ferricstore_go.Base.Bytes.{Bytes, codes, bytes_eq}
use ferricstore_go.Base.Dict.{lookup}
use ferricstore_go.Route.Plan.{Identity, Group, same_identity, identity_eq}
use ferricstore_go.Route.Scatter.{Values, scatter_mget}
use ferricstore_go.Route.Scatter.Merged.{TasksOf, Among, scatter_mget-values}
use ferricstore_go.Route.Examples.{node, allowed, two_nodes, three_keys, groups, planned}

abbrev first_node : Identity
first_node = record { name = codes "node"; lane = 1 }

abbrev second_node : Identity
second_node = record { name = codes "node"; lane = 2 }

abbrev first_group : Group Bytes
first_group = record {
  route = node 0 579;
  keys = codes "a" ∷ codes "x{a}y" ∷ [];
  positions = 0 ∷ 2 ∷ [];
}

abbrev second_group : Group Bytes
second_group = record { route = node 1 1017; keys = codes "b" ∷ []; positions = 1 ∷ [] }

abbrev tasks : List (Group Bytes)
tasks = second_group ∷ first_group ∷ []

-- A shard that keeps the length of each key.
abbrev lengths : Group Bytes → Result ℕ (List ℕ)
lengths g = ok (map length g.keys)

every_group : (i : Identity) (g : Group Bytes) → lookup i groups ≡ some g → Among g tasks
unfolding lookup
every_group i g found = elim (Bool-cases (same_identity first_node i)) [
  | inl first ↦
      let it : some first_group ≡ some g = rw first at found in
      inr (inl (let same : first_group ≡ g = cc in same))
  | inr other ↦ elim (Bool-cases (same_identity second_node i)) [
    | inl second ↦
        let it : some second_group ≡ some g = rw (other, second) at found in
        inl (let same : second_group ≡ g = cc in same)
    | inr neither ↦ absurd (let no : none ≡ some g = rw (other, neither) at found in cc)
  ]
]

tasks-TasksOf : TasksOf groups tasks
unfolding lookup bytes_eq
tasks-TasksOf = (((second_node, refl), ((first_node, refl), tt)), every_group)

scatter_mget-values_example :
    (values : Values ℕ) × ((scatter_mget lengths 0 tasks ≡ ok values)
      × ((p : ℕ) → values p ≡ map_option length (get_elem? three_keys p)))
scatter_mget-values_example =
    scatter_mget-values (λ b. b) allowed (some two_nodes) length lengths 0 three_keys (node 0 579)
      groups tasks planned tasks-TasksOf (refl, (refl, tt))
