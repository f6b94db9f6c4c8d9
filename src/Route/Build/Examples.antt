-- ===== src/Route/Build/Examples.antt =====
-- A cluster of one node that leads the one shard of all slots.
use ferricstore_go.Base.{
  ℕ, ◌≡◌, ◌<◌, refl, sym, ap, ◌∙◌, [], ◌∷◌, List, Bool, true, false, some, none, ok, err, Result,
  Result-cases, inl, inr, arith,
}
use ferricstore_go.Base.Int.{pos}
use ferricstore_go.Base.Bytes.{codes, Bytes}
use ferricstore_go.Base.Dict.{nat_eq, lookup, insert}
use ferricstore_go.Route.Slot.{route_slot_for_string}
use ferricstore_go.Route.Plan.{Route, route_string_key}
use ferricstore_go.Route.Build.{
  ShardRoute, Endpoint, ShardsFields, Built, BuildError, build, finish_build, finish_tables,
  all_present, add_ranges, add_range, add_segment, claim_slots, read_range, segment_of, route_of,
  missing_slot, missing_shard,
}
use ferricstore_go.Route.Build.Reads.{in_run, claim_slots-claims, claim_slots-free}
use ferricstore_go.Route.Build.Covers.{covering, DescribedBy}
use ferricstore_go.Route.Build.Routing.{
  all_present-total, build-covers, build-consistent, build-routes,
}

abbrev node_a : Endpoint
node_a = record { node = codes "a"; host = codes "h"; native_port = 7000; native_tls_port = 0 }

abbrev whole : ShardsFields
whole = record {
  route_epoch = some (pos 3);
  shard_count = some (pos 1);
  slots = none;
  ranges =
      record {
        no_leader = false;
        first_slot = some (pos 0);
        last_slot = some (pos 1023);
        shard = some (pos 0);
        lane_id = some (pos 1);
        endpoint = some node_a;
      }
      ∷ [];
}

abbrev name_of : Endpoint → Bytes
name_of e = e.host

abbrev is_ok : Result BuildError Built → Bool
is_ok (ok t) = true
is_ok (err e) = false

all_claimed :
    (m : List (ℕ × Route Endpoint)) × (claim_slots 1024 0
        (route_of name_of (record { first = 0; last = 1023; shard = 0; lane = 1 }) node_a)
        []
      ≡ ok m)
unfolding lookup
all_claimed =
    claim_slots-free 1024 0
      (route_of name_of (record { first = 0; last = 1023; shard = 0; lane = 1 }) node_a) []
      (λ s lo hi. refl)

all_there : all_present missing_slot 1024 0 all_claimed.0 ≡ ok tt
all_there = all_present-total missing_slot 1024 0 all_claimed.0 (λ k lo hi.
    let here : in_run 0 1024 k ≡ true = ground (arith, hi) in
    (
      record (route_of name_of (record { first = 0; last = 1023; shard = 0; lane = 1 }) node_a) {
        slot = k;
      },
      (rw here at
          (claim_slots-claims 1024 0
            (route_of name_of (record { first = 0; last = 1023; shard = 0; lane = 1 }) node_a) []
            all_claimed.0 all_claimed.1 k).0),
    ))

abbrev shards : List (ℕ × ShardRoute)
shards = (0, record { lane = 1; endpoint = codes "h"; leader = codes "a" }) ∷ []

shard_there : all_present missing_shard 1 0 shards ≡ ok tt
unfolding all_present lookup
shard_there = refl

runs : is_ok (build name_of whole) ≡ true
unfolding build finish_build finish_tables add_ranges add_range add_segment read_range segment_of
    lookup insert
runs = rw (all_claimed.1, shard_there, all_there) refl

built : (t : Built) × (build name_of whole ≡ ok t)
built = elim (Result-cases (build name_of whole)) [
  | inl found ↦ found
  | inr (e, bad) ↦ absurd (let no : false ≡ true = sym (ap is_ok bad) ∙ runs in cc)
]

build-covers_example :
    (covering 5 whole.ranges ≡ 1)
    × ((r : Route Endpoint) × ((built.0.topology.slots 5 ≡ some r)
          × DescribedBy name_of whole.ranges 5 r))
build-covers_example = build-covers name_of whole built.0 5 built.1 (omega arith)

at_700 :
    (covering 700 whole.ranges ≡ 1)
    × ((r : Route Endpoint) × ((built.0.topology.slots 700 ≡ some r)
          × DescribedBy name_of whole.ranges 700 r))
at_700 = build-covers name_of whole built.0 700 built.1 (omega arith)

one_shard : (slot : ℕ) (r : Route Endpoint) → DescribedBy name_of whole.ranges slot r → r.shard ≡ 0
one_shard slot r (inl (inside, (shard, _))) = let zero_shard : 0 ≡ r.shard = cc in sym zero_shard
one_shard slot r (inr none_left) = absurd none_left

build-consistent_example :
    (build-covers_example.1.0.lane_id ≡ at_700.1.0.lane_id)
    × ((build-covers_example.1.0.endpoint ≡ at_700.1.0.endpoint)
        × ((build-covers_example.1.0.leader_node ≡ at_700.1.0.leader_node)
            × (build-covers_example.1.0.shard < built.0.shard_count)))
build-consistent_example =
    build-consistent name_of whole built.0 5 700 build-covers_example.1.0 at_700.1.0 built.1
      build-covers_example.1.1.0 at_700.1.1.0
      (one_shard 5 build-covers_example.1.0 build-covers_example.1.1.1
        ∙ sym (one_shard 700 at_700.1.0 at_700.1.1.1))

build-routes_example :
    (r : Route Endpoint) × ((route_string_key name_of
          (λ e. true)
          (some built.0.topology)
          (codes "user:1")
        ≡ ok r)
      × DescribedBy name_of whole.ranges (route_slot_for_string (codes "user:1")) r)
build-routes_example = build-routes name_of (λ e. true) whole built.0 (codes "user:1") built.1
