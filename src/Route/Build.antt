-- ===== src/Route/Build.antt =====
-- The routing topology that a SHARDS response describes, `buildRoutingTopology` of topology_build.go. The
-- response is taken field by field, as `topologyInteger` and `endpointFromRange` read it: none is a
-- field that they reject. The name of an endpoint (`endpointKey`) is an argument.
pub mod Reads
pub mod Covers
pub mod Consistent
pub mod Routing
pub mod Examples
use ferricstore_go.Base.{
  ℕ, zero, suc, ◌+◌, ◌-◌, ◌≡◌, ◌↔◌, List, [], ◌∷◌, length, Bool, true, false, ◌&&◌, ◌||◌, not,
  Option, none, some, Result, ok, err, ◌>>=◌, ltb, leb, ◌==◌, if◌then◌else◌, arith,
}
use ferricstore_go.Base.Int.{ℤ, pos, negsuc}
use ferricstore_go.Base.Bytes.{Bytes, bytes_eq, bytes_eq_iff}
use ferricstore_go.Base.Dict.{Eq, nat_eq, lookup, insert}
use ferricstore_go.Route.Slot.{route_slot_count}
use ferricstore_go.Route.Plan.{Route, Topology}

pub data BuildError : Type 0 where
  invalid_epoch invalid_shard_count invalid_slots invalid_ranges leader_unknown : BuildError
  invalid_metadata invalid_endpoint invalid_range : BuildError
  inconsistent_shard inconsistent_endpoint shard_count_mismatch : BuildError
  overlapping missing_shard missing_slot : ℕ → BuildError

-- `RoutingEndpoint`
pub record Endpoint : Type 0 where
  pub node : Bytes
  pub host : Bytes
  pub native_port : ℕ
  pub native_tls_port : ℕ

abbrev pub same_endpoint : Endpoint → Endpoint → Bool
same_endpoint a b =
    (bytes_eq a.node b.node && bytes_eq a.host b.host)
    && (a.native_port == b.native_port && a.native_tls_port == b.native_tls_port)

-- An entry of `ranges`.
pub record RangeFields : Type 0 where
  pub no_leader : Bool
  pub first_slot : Option ℤ
  pub last_slot : Option ℤ
  pub shard : Option ℤ
  pub lane_id : Option ℤ
  pub endpoint : Option Endpoint

-- A range with numbers in their bounds.
pub record Segment : Type 0 where
  pub first : ℕ
  pub last : ℕ
  pub shard : ℕ
  pub lane : ℕ

-- `shardRoute`
pub record ShardRoute : Type 0 where
  pub lane : ℕ
  pub endpoint : Bytes
  pub leader : Bytes

abbrev pub same_shard_route : ShardRoute → ShardRoute → Bool
same_shard_route a b =
    a.lane == b.lane && (bytes_eq a.endpoint b.endpoint && bytes_eq a.leader b.leader)

instance abbrev pub bytes_key : Eq Bytes
bytes_key = record { beq = bytes_eq; beq_iff = bytes_eq_iff }

-- What the loop over the ranges has found so far.
pub record Building : Type 0 where
  pub shard_routes : List (ℕ × ShardRoute)
  pub endpoints : List (Bytes × Endpoint)
  pub slots : List (ℕ × Route Endpoint)

abbrev pub max_uint32 : ℕ
max_uint32 = 0xffffffff

-- The test of the numbers of a range.
unfoldable pub segment_of : ℕ → ℤ → ℤ → ℤ → ℤ → Result BuildError Segment
segment_of shard_count (pos first) (pos last) (pos shard) (pos lane) =
    if ltb last first
      || leb route_slot_count last
      || (leb shard_count shard || (lane == 0 || leb max_uint32 lane))
    then err invalid_range
    else ok (record { first = first; last = last; shard = shard; lane = lane })
segment_of shard_count _ _ _ _ = err invalid_range

abbrev pub required {ℓ} : {A : Type ℓ} → Option A → BuildError → Result BuildError A
required none e = err e
required (some a) e = ok a

-- The errors of the fields, in the order of the code.
unfoldable pub read_range : ℕ → RangeFields → Result BuildError (Segment × Endpoint)
read_range shard_count f =
    if f.no_leader
    then err leader_unknown
    else (required f.first_slot invalid_metadata >>= λ first.
        required f.last_slot invalid_metadata >>= λ last.
        required f.shard invalid_metadata >>= λ shard.
        required f.lane_id invalid_metadata >>= λ lane.
        required f.endpoint invalid_endpoint >>= λ e.
        segment_of shard_count first last shard lane >>= λ s. ok (s, e))

-- The loop over the slots of a range.
unfoldable pub claim_slots :
    ℕ
    → ℕ
    → Route Endpoint
    → List (ℕ × Route Endpoint)
    → Result BuildError (List (ℕ × Route Endpoint))
claim_slots zero slot r slots = ok slots
claim_slots (suc n) slot r slots = elim (lookup slot slots) [
  | some taken ↦ err (overlapping slot)
  | none ↦ claim_slots n (slot + 1) r (insert slot (record r { slot = slot }) slots)
]

-- `previous, exists := m[key]; exists && previous != value`, then `m[key] = value`.
abbrev pub agrees : {V : Type 0} → (V → V → Bool) → Option V → V → Bool
agrees same none v = true
agrees same (some w) v = same w v

module _ (endpoint_key : Endpoint → Bytes) where
  abbrev pub shard_route_of : Segment → Endpoint → ShardRoute
  shard_route_of s e = record { lane = s.lane; endpoint = endpoint_key e; leader = e.node }

  abbrev pub route_of : Segment → Endpoint → Route Endpoint
  route_of s e = record {
    shard = s.shard;
    lane_id = s.lane;
    endpoint_key = endpoint_key e;
    endpoint = e;
    leader_node = e.node;
    slot = 0;
  }

  -- The body of the loop over the ranges, behind the reading of the range.
  unfoldable pub add_segment : Building → Segment → Endpoint → Result BuildError Building
  add_segment b s e =
      if not (agrees same_shard_route (lookup s.shard b.shard_routes) (shard_route_of s e))
      then err inconsistent_shard
      else if not (agrees same_endpoint (lookup (endpoint_key e) b.endpoints) e)
      then err inconsistent_endpoint
      else (claim_slots (s.last + 1 - s.first) s.first (route_of s e) b.slots >>= λ slots.
          ok (record {
            shard_routes = insert s.shard (shard_route_of s e) b.shard_routes;
            endpoints = insert (endpoint_key e) e b.endpoints;
            slots = slots;
          }))

  unfoldable pub add_range : ℕ → Building → RangeFields → Result BuildError Building
  add_range shard_count b f = read_range shard_count f >>= λ (s, e). add_segment b s e

  unfoldable pub add_ranges : ℕ → Building → List RangeFields → Result BuildError Building
  add_ranges shard_count b [] = ok b
  add_ranges shard_count b (f ∷ fs) =
      add_range shard_count b f >>= λ b'. add_ranges shard_count b' fs

-- The fields of the response; `slots` is the outer none where it is absent.
pub record ShardsFields : Type 0 where
  pub route_epoch : Option ℤ
  pub shard_count : Option ℤ
  pub slots : Option (Option ℤ)
  pub ranges : List RangeFields

pub record Built : Type 0 where
  pub route_epoch : ℕ
  pub shard_count : ℕ
  pub topology : Topology Endpoint
  pub endpoints : List (Bytes × Endpoint)

abbrev pub epoch_of : Option ℤ → Result BuildError ℕ
epoch_of (some (pos n)) = ok n
epoch_of _ = err invalid_epoch

abbrev pub shard_count_of : Option ℤ → Result BuildError ℕ
shard_count_of (some (pos n)) =
    if n == 0 || ltb route_slot_count n then err invalid_shard_count else ok n
shard_count_of _ = err invalid_shard_count

abbrev pub slots_ok : Option (Option ℤ) → Result BuildError (Unit {0})
slots_ok none = ok tt
slots_ok (some (some (pos n))) = if n == route_slot_count then ok tt else err invalid_slots
slots_ok (some _) = err invalid_slots

-- The loops over the shards and the slots, from a number on.
unfoldable pub all_present {ℓ} :
    {V : Type ℓ} → (ℕ → BuildError) → ℕ → ℕ → List (ℕ × V) → Result BuildError (Unit {0})
all_present missing zero from m = ok tt
all_present missing (suc n) from m = elim (lookup from m) [
  | none ↦ err (missing from)
  | some v ↦ all_present missing n (from + 1) m
]

module _ (endpoint_key : Endpoint → Bytes) where
  -- What is tested and built behind the loop over the ranges.
  unfoldable pub finish_tables : ℕ → ℕ → Building → Result BuildError Built
  finish_tables epoch shard_count b =
      all_present missing_shard shard_count 0 b.shard_routes >>= λ _.
      all_present missing_slot route_slot_count 0 b.slots >>= λ _. ok (record {
        route_epoch = epoch;
        shard_count = shard_count;
        topology = record { slots = λ slot. lookup slot b.slots };
        endpoints = b.endpoints;
      })

  unfoldable pub finish_build : ℕ → ℕ → Building → Result BuildError Built
  finish_build epoch shard_count b =
      if not (length b.shard_routes == shard_count)
      then err shard_count_mismatch
      else finish_tables epoch shard_count b

  -- `buildRoutingTopology`
  unfoldable pub build : ShardsFields → Result BuildError Built
  build f = epoch_of f.route_epoch >>= λ epoch. shard_count_of f.shard_count >>= λ shard_count.
      slots_ok f.slots >>= λ _.
      if length f.ranges == 0 || ltb route_slot_count (length f.ranges)
      then err invalid_ranges
      else (add_ranges endpoint_key shard_count
            (record { shard_routes = []; endpoints = []; slots = [] }) f.ranges
          >>= λ b. finish_build epoch shard_count b)
