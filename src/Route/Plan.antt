-- ===== src/Route/Plan.antt =====
-- The plan of a command on many keys, topology_kv_route.go: one route for all keys, or a group of keys for
-- each route. The name of an endpoint (`endpointKey`) and the policy of the client (`validateEndpoint`) are
-- arguments, since the plan only compares the one and asks the other.
use ferricstore_go.Base.{
  ℕ, zero, suc, ◌+◌, ◌≡◌, ◌↔◌, List, [], ◌∷◌, ◌++◌, length, take, drop, Bool, true, ◌&&◌, Option,
  none, some, Result, ok, err, ◌>>=◌, ◌==◌, if◌then◌else◌, arith,
}
use ferricstore_go.Base.Bytes.{Bytes, bytes_eq, bytes_eq_iff}
use ferricstore_go.Base.Dict.{Eq, lookup, insert}
use ferricstore_go.Route.Slot.{route_slot_for_string}

pub data PlanError : Type 0 where
  topology_empty index_out_of_range : PlanError
  no_route : ℕ → PlanError
  invalid_endpoint : PlanError

pub record Route (E : Type 0) : Type 0 where
  pub shard : ℕ
  pub lane_id : ℕ
  pub endpoint_key : Bytes
  pub endpoint : E
  pub leader_node : Bytes
  pub slot : ℕ

-- The array of the slots; nil is `none`.
pub record Topology (E : Type 0) : Type 0 where
  pub slots : ℕ → Option (Route E)

pub record Identity : Type 0 where
  pub name : Bytes
  pub lane : ℕ

abbrev pub same_identity : Identity → Identity → Bool
same_identity a b = bytes_eq a.name b.name && a.lane == b.lane

pub same_identity_iff : (a b : Identity) → (same_identity a b ≡ true) ↔ (a ≡ b)
same_identity_iff a b = ground (arith, bytes_eq_iff a.name b.name)

instance abbrev pub identity_eq : Eq Identity
identity_eq = record { beq = same_identity; beq_iff = same_identity_iff }

pub record Group (E : Type 0) : Type 0 where
  pub route : Route E
  pub keys : List Bytes
  pub positions : List ℕ

module _ {E : Type 0} (endpoint_name : E → Bytes) (valid : E → Bool) where
  abbrev pub Groups : Type 0
  Groups = List (Identity × Group E)

  -- `routeIdentity`
  unfoldable pub route_identity : Route E → Identity
  route_identity r = record {
    name = if length r.endpoint_key == 0 then endpoint_name r.endpoint else r.endpoint_key;
    lane = r.lane_id;
  }

  -- `routeStringKeyInTopology`
  unfoldable pub route_string_key : Option (Topology E) → Bytes → Result PlanError (Route E)
  route_string_key none key = err topology_empty
  route_string_key (some t) key =
      let slot = route_slot_for_string key in
      elim (t.slots slot) [ none ↦ err (no_route slot) | some r ↦ ok (record r { slot = slot }) ]

  abbrev pub validate : Route E → Result PlanError (Route E)
  validate r = if valid r.endpoint then ok r else err invalid_endpoint

  module _ (topology : Option (Topology E)) where
    -- The loop of `singleRouteInTopology`: where the first key with another route stands.
    unfoldable pub find_divergence : Identity → ℕ → List Bytes → Result PlanError (Option ℕ)
    find_divergence identity offset [] = ok none
    find_divergence identity offset (k ∷ ks) = route_string_key topology k >>= λ r.
        (let rest = find_divergence identity (offset + 1) ks in
          if same_identity (route_identity r) identity then rest else ok (some offset))

    -- `singleRouteInTopology`; without a key the source panics.
    unfoldable pub single_route : List Bytes → Result PlanError (Route E × Option ℕ)
    single_route [] = err index_out_of_range
    single_route (k ∷ ks) = route_string_key topology k >>= λ r. validate r >>= λ first.
        find_divergence (route_identity first) 1 ks >>= λ found. ok (first, found)

    -- A key joins the group of its route; a new group needs an endpoint that is allowed.
    unfoldable pub group_of : Groups → Route E → Result PlanError (Group E)
    group_of groups r = elim (lookup (route_identity r) groups) [
      | some g ↦ ok g
      | none ↦ validate r >>= λ r'. ok (record { route = r'; keys = []; positions = [] })
    ]

    abbrev pub join_group : Bool → ℕ → Bytes → Group E → Group E
    join_group include_positions position key g = record g {
      keys = g.keys ++ (key ∷ []);
      positions = if include_positions then g.positions ++ (position ∷ []) else g.positions;
    }

    -- The last loop of `planStringKeyRoutesInTopology`.
    unfoldable pub group_keys : Bool → ℕ → List Bytes → Groups → Result PlanError Groups
    group_keys include_positions position [] groups = ok groups
    group_keys include_positions position (k ∷ ks) groups = route_string_key topology k >>= λ r.
        group_of groups r >>= λ g.
        group_keys include_positions (position + 1) ks
          (insert (route_identity r) (join_group include_positions position k g) groups)

    abbrev pub numbers : ℕ → ℕ → List ℕ
    numbers from zero = []
    numbers from (suc n) = from ∷ numbers (from + 1) n

    -- The groups of the first route and of the one that differs.
    unfoldable pub first_groups : Bool → Route E → Route E → List Bytes → ℕ → Bytes → Groups
    first_groups include_positions first divergent before divergence key =
        insert (route_identity divergent)
          (record {
            route = divergent;
            keys = key ∷ [];
            positions = if include_positions then divergence ∷ [] else [];
          })
          (insert (route_identity first)
            (record {
              route = first;
              keys = before;
              positions = if include_positions then numbers 0 divergence else [];
            })
            [])

    -- What follows when the keys have several routes.
    unfoldable pub plan_from :
        Bool → Route E → ℕ → List Bytes → List Bytes → Result PlanError Groups
    plan_from include_positions first divergence before [] = err index_out_of_range
    plan_from include_positions first divergence before (key ∷ behind) =
        route_string_key topology key >>= λ r. validate r >>= λ divergent.
        group_keys include_positions (divergence + 1) behind
          (first_groups include_positions first divergent before divergence key)

    -- `planStringKeyRoutesInTopology`; without groups all keys have the first key's route.
    unfoldable pub plan_routes : Bool → List Bytes → Result PlanError (Route E × Option Groups)
    plan_routes include_positions keys = single_route keys >>= λ (first, found). elim found [
      | none ↦ ok (first, none)
      | some d ↦ plan_from include_positions first d (take d keys) (drop d keys) >>= λ groups.
          ok (first, some groups)
    ]
