-- ===== src/Route/Examples.antt =====
-- Two routes for three keys, two of which share a hash tag.
use ferricstore_go.Base.{ℕ, Bool, ◌+◌, ◌/◌, ◌≡◌, refl, true, List, [], ◌∷◌, ◌++◌, some, ok, arith}
use ferricstore_go.Base.Bytes.{Bytes, codes, bytes_eq}
use ferricstore_go.Base.Dict.{lookup, insert}
use ferricstore_go.Route.Slot.{
  open_brace, close_brace, hash_tag_or_key, hash_tag_or_key-tag, route_slot_for_string, route_crc32,
  crc_loop, table_steps, index_byte, before_close, hash_input,
}
use ferricstore_go.Route.Plan.{
  Route, Topology, Identity, Group, identity_eq, route_identity, route_string_key, find_divergence,
  single_route, group_of, group_keys, first_groups, plan_from, plan_routes,
}
use ferricstore_go.Base.{length, take, ◌≤◌}
use ferricstore_go.Base.Int.{pos}
use ferricstore_go.Route.Shard.{
  text, routing_target_slot, shard_loop, single_shard_key, SameShard, single_shard_key-SameShard,
  bounded_routing_count, counted_read_keys, counted_read_keys-count,
}
use ferricstore_go.Route.Partition.{Splits, plan_routes-Splits}

hash_tag_or_key-tag_example :
    hash_tag_or_key (codes "x" ++ (open_brace ∷ (codes "a" ++ (close_brace ∷ codes "y"))))
    ≡ codes "a"
hash_tag_or_key-tag_example =
    hash_tag_or_key-tag (codes "x") (codes "a") (codes "y") (refl, tt) (refl, tt) (omega arith)

abbrev pub node : ℕ → ℕ → Route Bytes
node n slot = record {
  shard = n;
  lane_id = n + 1;
  endpoint_key = [];
  endpoint = codes "node";
  leader_node = [];
  slot = slot;
}

abbrev pub two_nodes : Topology Bytes
two_nodes = record { slots = λ s. some (node (s / 600) 0) }

abbrev pub allowed : Bytes → Bool
allowed b = true

abbrev pub three_keys : List Bytes
three_keys = codes "a" ∷ codes "b" ∷ codes "x{a}y" ∷ []

-- The known check value of CRC-32.
check_value : route_crc32 (codes "123456789") ≡ 0xcbf43926
unfolding route_crc32 crc_loop table_steps
check_value = refl

abbrev pub groups : List (Identity × Group Bytes)
groups =
    (
      record { name = codes "node"; lane = 1 },
      record { route = node 0 579; keys = codes "a" ∷ codes "x{a}y" ∷ []; positions = 0 ∷ 2 ∷ [] },
    )
    ∷ (
      record { name = codes "node"; lane = 2 },
      record { route = node 1 1017; keys = codes "b" ∷ []; positions = 1 ∷ [] },
    )
    ∷ []

pub planned :
    plan_routes (λ b. b) allowed (some two_nodes) true three_keys ≡ ok (node 0 579, some groups)
unfolding plan_routes single_route find_divergence route_string_key route_identity plan_from
    first_groups group_keys group_of lookup insert route_slot_for_string hash_input hash_tag_or_key
    before_close index_byte route_crc32 crc_loop table_steps bytes_eq
planned = refl

plan_routes-Splits_example :
    Splits (λ b. b) allowed (some two_nodes) three_keys (node 0 579, some groups)
plan_routes-Splits_example =
    plan_routes-Splits (λ b. b) allowed (some two_nodes) true three_keys (node 0 579, some groups)
      planned

shared_tag :
    single_shard_key (text (codes "a") ∷ text (codes "x{a}y") ∷ []) ≡ some (text (codes "a"))
unfolding single_shard_key shard_loop routing_target_slot route_slot_for_string hash_input
    hash_tag_or_key before_close index_byte route_crc32 crc_loop table_steps bytes_eq
shared_tag = refl

single_shard_key-SameShard_example :
    SameShard (text (codes "a") ∷ text (codes "x{a}y") ∷ []) (text (codes "a"))
single_shard_key-SameShard_example =
    single_shard_key-SameShard (text (codes "a") ∷ text (codes "x{a}y") ∷ []) (text (codes "a"))
      shared_tag

two_counted : counted_read_keys pos (90 ∷ 2 ∷ 7 ∷ 8 ∷ 9 ∷ []) ≡ some (7 ∷ 8 ∷ [])
unfolding counted_read_keys bounded_routing_count
two_counted = refl

abbrev counted : List ℕ
counted = 7 ∷ 8 ∷ []

counted_read_keys-count_example :
    (pos 2 ≡ pos (length counted)) × (1 ≤ length counted) × (counted ≡ take 2 (7 ∷ 8 ∷ 9 ∷ []))
counted_read_keys-count_example =
    counted_read_keys-count pos 90 2 (7 ∷ 8 ∷ 9 ∷ []) counted two_counted
