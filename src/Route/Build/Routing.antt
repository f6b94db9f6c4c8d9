-- ===== src/Route/Build/Routing.antt =====
-- The topology that is built routes every key, and as the response says.
use ferricstore_go.Base.{
  ℕ, zero, suc, ◌+◌, ◌/◌, ◌≡◌, ◌≤◌, ◌<◌, min, refl, sym, ap, subst, ◌∙◌, List, [], ◌∷◌, length,
  Bool, ◌||◌, none, some, ok, err, >>=-eq_ok, ok_injective, ltb, ◌==◌, ==_iff, Bool-cases,
  Option-cases, inl, inr, arith,
}
use Prim.Native.Nat.{bit_and, digits, bit_and-bitwise}
use ferricstore_go.Base.Bytes.{Bytes}
use ferricstore_go.Base.Dict.{nat_eq, lookup}
use ferricstore_go.Route.Slot.{
  route_slot_count, route_slot_mask, route_slot_for_string, route_crc32, hash_input,
}
use ferricstore_go.Route.Plan.{Route, route_string_key}
use ferricstore_go.Route.Build.{
  BuildError, missing_slot, missing_shard, shard_count_mismatch, invalid_ranges, Endpoint,
  RangeFields, Building, add_ranges, ShardsFields, Built, finish_build, finish_tables, build,
  all_present, bytes_key, epoch_of, shard_count_of, slots_ok,
}
use ferricstore_go.Route.Build.Covers.{
  covering, present, DescribedBy, add_ranges-covering, add_ranges-described,
}
use ferricstore_go.Route.Build.Consistent.{IsConsistent, shard_route_in, add_ranges-IsConsistent}

all_present-found :
    {V : Type 0} (missing : ℕ → BuildError) (n from : ℕ) (m : List (ℕ × V)) (u : Unit {0})
    → all_present missing n from m ≡ ok u
    → (k : ℕ) → from ≤ k
    → k < from + n
    → (v : V) × (lookup k m ≡ some v)
unfolding all_present
all_present-found missing zero from m u h k lo hi = absurd (omega arith)
all_present-found missing (suc n) from m u h k lo hi = elim (Option-cases (lookup from m)) [
  | inl gone ↦ absurd (let no : err (missing from) ≡ ok u = rw (all_present, gone) at h in cc)
  | inr (v, found) ↦ elim (Bool-cases (from == k)) [
    | inl here ↦ (v, ap (λ x. lookup x m) (sym ((==_iff from k).0 here)) ∙ found)
    | inr on ↦
        all_present-found missing n (from + 1) m u (rw (all_present, found) at h) k
          (ground (arith, on)) (omega arith)
  ]
]

pub all_present-total :
    {V : Type 0} (missing : ℕ → BuildError) (n from : ℕ) (m : List (ℕ × V))
    → ((k : ℕ) → from ≤ k → k < from + n → (v : V) × (lookup k m ≡ some v))
    → all_present missing n from m ≡ ok tt
unfolding all_present
all_present-total missing zero from m there = refl
all_present-total missing (suc n) from m there =
    let (v, found) = there from (omega arith) (omega arith) in
    rw (all_present, found)
      (all_present-total missing n (from + 1) m (λ k lo hi. there k (omega arith) (omega arith)))

empty_building : Building
empty_building = record { shard_routes = []; endpoints = []; slots = [] }

module _ (endpoint_key : Endpoint → Bytes) where
  -- What `finish_build` gives: the slots of the building, which are all there.
  record Finished (shard_count : ℕ) (b : Building) (t : Built) : Type 0 where
    same_slots : (k : ℕ) → t.topology.slots k ≡ lookup k b.slots
    same_count : t.shard_count ≡ shard_count
    slots_there :
        (k : ℕ) → k < route_slot_count → (r : Route Endpoint) × (lookup k b.slots ≡ some r)

  finish_build-Finished :
      (epoch shard_count : ℕ) (b : Building) (t : Built)
      → finish_build endpoint_key epoch shard_count b ≡ ok t
      → Finished shard_count b t
  unfolding finish_build finish_tables
  finish_build-Finished epoch shard_count b t h =
      elim (Bool-cases (length b.shard_routes == shard_count)) [
        | inr other ↦
            absurd
              (let no : err shard_count_mismatch ≡ ok t = simp (finish_build, other) at h in cc)
        | inl same ↦
            let tables : finish_tables endpoint_key epoch shard_count b ≡ ok t =
              rw (finish_build, same) at h in
            let (u, shards, h1) =
              >>=-eq_ok (all_present missing_shard shard_count 0 b.shard_routes) _ tables in
            let (w, slots, h2) =
              >>=-eq_ok (all_present missing_slot route_slot_count 0 b.slots) _ h1 in
            let now : record {
              route_epoch = epoch;
              shard_count = shard_count;
              topology = record { slots = λ slot. lookup slot b.slots };
              endpoints = b.endpoints;
            }
                ≡ t =
              ok_injective h2 in
            record {
              same_slots = λ k. ap (λ x. x.topology.slots k) (sym now);
              same_count = sym (ap (λ x. x.shard_count) now);
              slots_there = λ k lt.
                  all_present-found missing_slot route_slot_count 0 b.slots w slots k (omega arith)
                    (omega arith);
            }
      ]

  -- The building that a build comes from.
  build-building :
      (f : ShardsFields) (t : Built)
      → build endpoint_key f ≡ ok t
      → (shard_count : ℕ) × ((b : Building) × ((add_ranges endpoint_key shard_count empty_building
                f.ranges
              ≡ ok b)
            × Finished shard_count b t))
  unfolding build empty_building
  build-building f t h =
      let (epoch, h0, h1) = >>=-eq_ok (epoch_of f.route_epoch) _ h in
      let (shard_count, h2, h3) = >>=-eq_ok (shard_count_of f.shard_count) _ h1 in
      let (u, h4, h5) = >>=-eq_ok (slots_ok f.slots) _ h3 in
      elim (Bool-cases (length f.ranges == 0 || ltb route_slot_count (length f.ranges))) [
        | inl bad ↦ absurd (let no : err invalid_ranges ≡ ok t = rw bad at h5 in cc)
        | inr good ↦
            let (b, ranges, finished) = >>=-eq_ok _ _ (rw good at h5) in
            (shard_count, (b, (ranges, finish_build-Finished epoch shard_count b t finished)))
      ]

  -- A topology that is built answers each slot below 1024 with a route that a range of the response
  -- describes for that slot, and exactly one of the ranges covers the slot.
  pub build-covers :
      (f : ShardsFields) (t : Built) (slot : ℕ)
      → build endpoint_key f ≡ ok t
      → slot < route_slot_count
      → (covering slot f.ranges ≡ 1)
        × ((r : Route Endpoint) × ((t.topology.slots slot ≡ some r)
              × DescribedBy endpoint_key f.ranges slot r))
  unfolding empty_building lookup
  build-covers f t slot h lt =
      let (shard_count, (b, (added, done))) = build-building f t h in
      let (r, found) = done.slots_there slot lt in
      let counted : present slot b.slots ≡ covering slot f.ranges + 0 =
        add_ranges-covering endpoint_key shard_count empty_building b f.ranges slot added in
      let there : present slot b.slots ≡ 1 = rw found refl in
      (
        omega (arith, counted, there),
        (
          r,
          (
            done.same_slots slot ∙ found,
            elim (add_ranges-described endpoint_key shard_count empty_building b f.ranges slot r
                added found) [
                  | inl described ↦ described
                  | inr before ↦ absurd (let no : none ≡ some r = before in cc)
                ],
          ),
        ),
      )

  -- Two slots of one shard have one lane, one endpoint and one leader, in a topology that is built, and
  -- the shard is one that the response counts.
  pub build-consistent :
      (f : ShardsFields) (t : Built) (i j : ℕ) (r r' : Route Endpoint)
      → build endpoint_key f ≡ ok t
      → t.topology.slots i ≡ some r
      → t.topology.slots j ≡ some r'
      → r.shard ≡ r'.shard
      → (r.lane_id ≡ r'.lane_id)
        × ((r.endpoint ≡ r'.endpoint)
            × ((r.leader_node ≡ r'.leader_node) × (r.shard < t.shard_count)))
  unfolding empty_building lookup
  build-consistent f t i j r r' h at_i at_j same =
      let (shard_count, (b, (added, done))) = build-building f t h in
      let c : IsConsistent endpoint_key shard_count b =
        add_ranges-IsConsistent endpoint_key shard_count empty_building b f.ranges
          (record {
            by_shard = λ k q found. absurd (let no : none ≡ some q = found in cc);
            by_endpoint = λ k q found. absurd (let no : none ≡ some q = found in cc);
          })
          added in
      let found : lookup i b.slots ≡ some r = sym (done.same_slots i) ∙ at_i in
      let found' : lookup j b.slots ≡ some r' = sym (done.same_slots j) ∙ at_j in
      let (mine, lt) = c.by_shard i r found in
      let (other, _) = c.by_shard j r' found' in
      let one : some (shard_route_in endpoint_key r) ≡ some (shard_route_in endpoint_key r') =
        sym mine ∙ (ap (λ x. lookup x b.shard_routes) same ∙ other) in
      let route : shard_route_in endpoint_key r ≡ shard_route_in endpoint_key r' = cc in
      let name : r.endpoint_key ≡ r'.endpoint_key = ap (λ x. x.endpoint) route in
      let ends : some (r.endpoint) ≡ some (r'.endpoint) =
        sym (c.by_endpoint i r found)
        ∙ (ap (λ x. lookup x b.endpoints) name ∙ c.by_endpoint j r' found') in
      (
        ap (λ x. x.lane) route,
        (cc, (ap (λ x. x.leader) route, (subst (λ n. r.shard < n) (sym done.same_count) lt))),
      )

digits-le : (n a b : ℕ) → digits (λ b. zero) min n a b ≤ b
digits-le zero a b = omega arith
digits-le (suc n) zero b = omega arith
digits-le (suc n) (suc a) b = omega (arith, digits-le n (suc a / 2) (b / 2))

route_slot_for_string-lt : (text : Bytes) → route_slot_for_string text < route_slot_count
unfolding route_slot_for_string
route_slot_for_string-lt text =
    let x : ℕ = route_crc32 (hash_input text) in
    let masked : bit_and x route_slot_mask ≤ route_slot_mask =
      subst (λ n. n ≤ route_slot_mask) (sym (λ i. bit_and-bitwise x route_slot_mask i))
        (digits-le x x route_slot_mask) in
    omega (arith, masked)

-- The range describes the slot, whatever the route's own slot says.
described-slot :
    (endpoint_key : Endpoint → Bytes) (fs : List RangeFields) (slot : ℕ) (r : Route Endpoint)
    → DescribedBy endpoint_key fs slot r
    → DescribedBy endpoint_key fs slot (record r { slot = slot })
described-slot endpoint_key [] slot r d = d
described-slot endpoint_key (f ∷ fs) slot r (inl (a, (b, (c, (d, (e, (g, k))))))) =
    inl (a, (b, (c, (d, (e, (g, refl))))))
described-slot endpoint_key (f ∷ fs) slot r (inr later) =
    inr (described-slot endpoint_key fs slot r later)

-- A topology that is built routes every text key: to the route of its slot, which a range of the response
-- describes.
pub build-routes :
    (endpoint_key : Endpoint → Bytes) (valid : Endpoint → Bool) (f : ShardsFields) (t : Built)
    (key : Bytes)
    → build endpoint_key f ≡ ok t
    → (r : Route Endpoint) × ((route_string_key endpoint_key valid (some t.topology) key ≡ ok r)
        × DescribedBy endpoint_key f.ranges (route_slot_for_string key) r)
unfolding route_string_key
build-routes endpoint_key valid f t key h =
    let slot : ℕ = route_slot_for_string key in
    let (_, (r, (found, described))) =
      build-covers endpoint_key f t slot h (route_slot_for_string-lt key) in
    (
      record r { slot = slot },
      (rw (route_string_key, found) refl, described-slot endpoint_key f.ranges slot r described),
    )
