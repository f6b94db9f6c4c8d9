-- ===== src/Route/Build/Consistent.antt =====
-- All slots of a shard have its one lane, endpoint and leader, and an endpoint's name stands for one endpoint.
use ferricstore_go.Base.{
  ℕ, ◌+◌, ◌-◌, ◌≡◌, ◌<◌, ◌⊎◌, sym, ap, subst, ◌∙◌, List, [], ◌∷◌, Bool, true, some, ok, >>=-eq_ok,
  ok_injective, if◌then◌else◌, Bool-cases, inl, inr, arith,
}
use ferricstore_go.Base.Bytes.{Bytes, bytes_eq_iff}
use ferricstore_go.Base.Dict.{Eq, nat_eq, lookup, insert, lookup-insert, lookup-insert_self}
use ferricstore_go.Route.Plan.{Route}
use ferricstore_go.Route.Build.{
  Endpoint, RangeFields, Segment, ShardRoute, Building, agrees, shard_route_of, route_of,
  same_shard_route, same_endpoint, add_range, add_ranges, bytes_key,
}
use ferricstore_go.Route.Build.Reads.{in_run, claim_slots-claims}
use ferricstore_go.Route.Build.Covers.{Added, add_range-Added}

same_shard_route-eq : (a b : ShardRoute) → same_shard_route a b ≡ true → a ≡ b
same_shard_route-eq a b h =
    ground (arith, h, bytes_eq_iff a.endpoint b.endpoint, bytes_eq_iff a.leader b.leader)

same_endpoint-eq : (a b : Endpoint) → same_endpoint a b ≡ true → a ≡ b
same_endpoint-eq a b h = ground (arith, h, bytes_eq_iff a.node b.node, bytes_eq_iff a.host b.host)

-- A write of a value that agrees with what is there keeps what is there.
keeps_agreeing :
    {K V : Type 0} ⦃e : Eq K⦄ (same : V → V → Bool) (same-eq : (a b : V) → same a b ≡ true → a ≡ b)
    (k j : K) (v w : V) (m : List (K × V))
    → agrees same (lookup k m) v ≡ true
    → lookup j m ≡ some w
    → lookup j (insert k v m) ≡ some w
keeps_agreeing ⦃e = e⦄ same same-eq k j v w m agreed found = elim (Bool-cases (e.beq k j)) [
  | inr other ↦ rw (lookup-insert k j v m, other) found
  | inl at_k ↦
      let there : lookup k m ≡ some w = ap (λ x. lookup x m) ((e.beq_iff k j).0 at_k) ∙ found in
      rw (lookup-insert k j v m, at_k) (ap some (sym (same-eq w v (rw there at agreed))))
]

module _ (endpoint_key : Endpoint → Bytes) where
  abbrev pub shard_route_in : Route Endpoint → ShardRoute
  shard_route_in r = record { lane = r.lane_id; endpoint = r.endpoint_key; leader = r.leader_node }

  -- What the maps of a building say of the routes of its slots.
  pub record IsConsistent (shard_count : ℕ) (b : Building) : Type 0 where
    pub by_shard :
        (k : ℕ) (r : Route Endpoint)
        → lookup k b.slots ≡ some r
        → (lookup r.shard b.shard_routes ≡ some (shard_route_in r)) × (r.shard < shard_count)
    pub by_endpoint :
        (k : ℕ) (r : Route Endpoint)
        → lookup k b.slots ≡ some r
        → lookup r.endpoint_key b.endpoints ≡ some r.endpoint

  add_range-IsConsistent :
      (shard_count : ℕ) (b b' : Building) (f : RangeFields)
      → IsConsistent shard_count b
      → add_range endpoint_key shard_count b f ≡ ok b'
      → IsConsistent shard_count b'
  add_range-IsConsistent shard_count b b' f i h =
      let (s, (e, (reads, added))) = add_range-Added endpoint_key shard_count b b' f h in
      record {
        by_shard = λ k r found. elim (entry s e b b' added k r found) [
          | inl new ↦ (
            subst (λ x. lookup x.shard b'.shard_routes ≡ some (shard_route_in x)) (sym new)
                (rw added.shards_now
                  (lookup-insert_self s.shard (shard_route_of endpoint_key s e) b.shard_routes)),
            subst (λ x. x.shard < shard_count) (sym new) reads.shard_lt,
          )
          | inr old ↦ (
            rw added.shards_now (
                keeps_agreeing same_shard_route same_shard_route-eq s.shard r.shard
                  (shard_route_of endpoint_key s e) (shard_route_in r) b.shard_routes
                  added.shard_agrees (i.by_shard k r old).0),
            (i.by_shard k r old).1,
          )
        ];
        by_endpoint = λ k r found. elim (entry s e b b' added k r found) [
          | inl new ↦
              subst (λ x. lookup x.endpoint_key b'.endpoints ≡ some x.endpoint) (sym new)
                (rw added.endpoints_now (lookup-insert_self (endpoint_key e) e b.endpoints))
          | inr old ↦ rw added.endpoints_now (
              keeps_agreeing same_endpoint same_endpoint-eq (endpoint_key e) r.endpoint_key e
                r.endpoint b.endpoints added.endpoint_agrees (i.by_endpoint k r old))
        ];
      }
    where
      entry :
          (s : Segment) (e : Endpoint) (c c' : Building)
          → Added endpoint_key c c' s e
          → (k : ℕ) (r : Route Endpoint) → lookup k c'.slots ≡ some r
          → (r ≡ record (route_of endpoint_key s e) { slot = k }) ⊎ (lookup k c.slots ≡ some r)
      entry s e c c' added k r found =
          let now : lookup k c'.slots ≡ (
              if in_run s.first (s.last + 1 - s.first) k
              then some (record (route_of endpoint_key s e) { slot = k })
              else lookup k c.slots) =
            (claim_slots-claims (s.last + 1 - s.first) s.first (route_of endpoint_key s e) c.slots
              c'.slots added.claimed k).0 in
          elim (Bool-cases (in_run s.first (s.last + 1 - s.first) k)) [
            | inl inside ↦
                let at_k : some r ≡ some (record (route_of endpoint_key s e) { slot = k }) =
                  sym found ∙ (rw inside at now) in
                inl cc
            | inr outside ↦ inr (sym (rw outside at now) ∙ found)
          ]

  pub add_ranges-IsConsistent :
      (shard_count : ℕ) (b b' : Building) (fs : List RangeFields)
      → IsConsistent shard_count b
      → add_ranges endpoint_key shard_count b fs ≡ ok b'
      → IsConsistent shard_count b'
  unfolding add_ranges
  add_ranges-IsConsistent shard_count b b' [] i h =
      let same : b ≡ b' = ok_injective h in subst (IsConsistent shard_count) same i
  add_ranges-IsConsistent shard_count b b' (f ∷ fs) i h =
      let (b1, first, rest) = >>=-eq_ok _ _ h in
      add_ranges-IsConsistent shard_count b1 b' fs
        (add_range-IsConsistent shard_count b b1 f i first) rest
