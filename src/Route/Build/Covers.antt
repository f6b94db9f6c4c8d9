-- ===== src/Route/Build/Covers.antt =====
-- Each slot of a topology that is built comes from exactly one range.
use ferricstore_go.Base.{
  ℕ, ◌+◌, ◌-◌, ◌≡◌, ◌⊎◌, refl, sym, ap, subst, ◌∙◌, List, [], ◌∷◌, Bool, true, false, ◌&&◌, Option,
  none, some, ok, err, >>=-eq_ok, ok_injective, leb, if◌then◌else◌, Bool-cases, inl, inr, arith,
}
use ferricstore_go.Base.Int.{ℤ, pos}
use ferricstore_go.Base.Bytes.{Bytes}
use ferricstore_go.Base.Dict.{nat_eq, lookup, insert}
use ferricstore_go.Route.Plan.{Route}
use ferricstore_go.Route.Build.{
  inconsistent_shard, inconsistent_endpoint, Endpoint, RangeFields, Segment, Building, claim_slots,
  agrees, shard_route_of, route_of, same_shard_route, same_endpoint, add_segment, add_range,
  add_ranges, bytes_key,
}
use ferricstore_go.Base.Dict.{weight_at}
use ferricstore_go.Route.Build.Reads.{in_run, claim_slots-claims, Reads, read_range-Reads}

-- Whether the range of the fields covers a slot.
abbrev pub within : Option ℤ → Option ℤ → ℕ → Bool
within (some (pos a)) (some (pos b)) s = leb a s && leb s b
within _ _ s = false

abbrev pub covers : ℕ → RangeFields → Bool
covers s f = within f.first_slot f.last_slot s

abbrev pub covering : ℕ → List RangeFields → ℕ
covering s [] = 0
covering s (f ∷ fs) = (if covers s f then 1 else 0) + covering s fs

abbrev pub present : ℕ → List (ℕ × Route Endpoint) → ℕ
present s m = weight_at (λ r. 1) (lookup s m)

module _ (endpoint_key : Endpoint → Bytes) where
  -- The route is the one that the range describes for the slot.
  abbrev pub Describes : RangeFields → ℕ → Route Endpoint → Type 0
  Describes f s r =
      (covers s f ≡ true)
      × ((f.shard ≡ some (pos r.shard))
          × ((f.lane_id ≡ some (pos r.lane_id))
              × ((f.endpoint ≡ some r.endpoint)
                  × ((r.endpoint_key ≡ endpoint_key r.endpoint)
                      × ((r.leader_node ≡ r.endpoint.node) × (r.slot ≡ s))))))

  abbrev pub DescribedBy : List RangeFields → ℕ → Route Endpoint → Type 0
  DescribedBy [] s r = ⊥
  DescribedBy (f ∷ fs) s r = Describes f s r ⊎ DescribedBy fs s r

  -- What a segment that is added does: its shard and endpoint agree with what is there, and its slots are claimed.
  pub record Added (b b' : Building) (s : Segment) (e : Endpoint) : Type 0 where
    pub shard_agrees :
        agrees same_shard_route (lookup s.shard b.shard_routes) (shard_route_of endpoint_key s e)
        ≡ true
    pub endpoint_agrees : agrees same_endpoint (lookup (endpoint_key e) b.endpoints) e ≡ true
    pub claimed :
        claim_slots (s.last + 1 - s.first) s.first (route_of endpoint_key s e) b.slots ≡ ok b'.slots
    pub shards_now :
        b'.shard_routes ≡ insert s.shard (shard_route_of endpoint_key s e) b.shard_routes
    pub endpoints_now : b'.endpoints ≡ insert (endpoint_key e) e b.endpoints

  pub add_segment-Added :
      (b b' : Building) (s : Segment) (e : Endpoint)
      → add_segment endpoint_key b s e ≡ ok b'
      → Added b b' s e
  unfolding add_segment
  add_segment-Added b b' s e h =
      elim (Bool-cases (
        agrees same_shard_route (lookup s.shard b.shard_routes)
          (shard_route_of endpoint_key s e))) [
            | inr bad ↦
                absurd (let no : err inconsistent_shard ≡ ok b' = rw (add_segment, bad) at h in cc)
            | inl shard ↦
                elim (Bool-cases (agrees same_endpoint (lookup (endpoint_key e) b.endpoints) e)) [
                  | inr bad ↦ absurd (
                      let no : err inconsistent_endpoint ≡ ok b' =
                        rw (add_segment, shard, bad) at h in
                      cc)
                  | inl agreed ↦
                      let (m, claimed, done) =
                        >>=-eq_ok _ _ (rw (add_segment, shard, agreed) at h) in
                      let now : record {
                        shard_routes =
                            insert s.shard (shard_route_of endpoint_key s e) b.shard_routes;
                        endpoints = insert (endpoint_key e) e b.endpoints;
                        slots = m;
                      }
                          ≡ b' =
                        ok_injective done in
                      record {
                        shard_agrees = shard;
                        endpoint_agrees = agreed;
                        claimed = claimed ∙ ap (λ x. ok (x.slots)) now;
                        shards_now = sym (ap (λ x. x.shard_routes) now);
                        endpoints_now = sym (ap (λ x. x.endpoints) now);
                      }
                ]
          ]

  -- A range that is added: what was read of it, and what it does.
  pub add_range-Added :
      (shard_count : ℕ) (b b' : Building) (f : RangeFields)
      → add_range endpoint_key shard_count b f ≡ ok b'
      → (s : Segment) × ((e : Endpoint) × (Reads shard_count f s e × Added b b' s e))
  unfolding add_range
  add_range-Added shard_count b b' f h =
      let ((s, e), read, added) = >>=-eq_ok _ _ h in
      (s, (e, (read_range-Reads shard_count f s e read, add_segment-Added b b' s e added)))

  -- The slots behind a range: its own have its route and had none.
  range_slots :
      (shard_count : ℕ) (b b' : Building) (f : RangeFields) (s : Segment) (e : Endpoint)
      → Reads shard_count f s e
      → Added b b' s e
      → (k : ℕ)
      → (lookup k b'.slots ≡ (
          if covers k f
          then some (record (route_of endpoint_key s e) { slot = k })
          else lookup k b.slots))
        × (covers k f ≡ true → lookup k b.slots ≡ none)
  range_slots shard_count b b' f s e reads added k =
      let same : covers k f ≡ in_run s.first (s.last + 1 - s.first) k =
        rw (reads.first, reads.last) (ground (arith, reads.ordered)) in
      let (now, before) =
        claim_slots-claims (s.last + 1 - s.first) s.first (route_of endpoint_key s e) b.slots
          b'.slots added.claimed k in
      (rw same now, λ c. before (sym same ∙ c))

  add_range-covering :
      (shard_count : ℕ) (b b' : Building) (f : RangeFields) (k : ℕ)
      → add_range endpoint_key shard_count b f ≡ ok b'
      → present k b'.slots ≡ (if covers k f then 1 else 0) + present k b.slots
  add_range-covering shard_count b b' f k h =
      let (s, (e, (reads, added))) = add_range-Added shard_count b b' f h in
      let (now, before) = range_slots shard_count b b' f s e reads added k in
      elim (Bool-cases (covers k f)) [
        | inl inside ↦ rw (now, inside, before inside) (omega arith)
        | inr outside ↦ rw (now, outside) (omega arith)
      ]

  pub add_ranges-covering :
      (shard_count : ℕ) (b b' : Building) (fs : List RangeFields) (k : ℕ)
      → add_ranges endpoint_key shard_count b fs ≡ ok b'
      → present k b'.slots ≡ covering k fs + present k b.slots
  unfolding add_ranges
  add_ranges-covering shard_count b b' [] k h =
      let same : b ≡ b' = ok_injective h in rw same (omega arith)
  add_ranges-covering shard_count b b' (f ∷ fs) k h =
      let (b1, first, rest) = >>=-eq_ok _ _ h in
      sum _ _ _ _ _ (add_range-covering shard_count b b1 f k first)
        (add_ranges-covering shard_count b1 b' fs k rest)
    where
      sum : (a c x y z : ℕ) → x ≡ c + y → z ≡ a + x → z ≡ c + a + y
      sum a c x y z h1 h2 = omega (arith, h1, h2)

  add_range-described :
      (shard_count : ℕ) (b b' : Building) (f : RangeFields) (k : ℕ) (r : Route Endpoint)
      → add_range endpoint_key shard_count b f ≡ ok b'
      → lookup k b'.slots ≡ some r
      → Describes f k r ⊎ (lookup k b.slots ≡ some r)
  add_range-described shard_count b b' f k r h found =
      let (s, (e, (reads, added))) = add_range-Added shard_count b b' f h in
      let (now, before) = range_slots shard_count b b' f s e reads added k in
      elim (Bool-cases (covers k f)) [
        | inr outside ↦ inr (sym (rw outside at now) ∙ found)
        | inl inside ↦
            let at_k : some (record (route_of endpoint_key s e) { slot = k }) ≡ some r =
              sym (rw inside at now) ∙ found in
            let same : record (route_of endpoint_key s e) { slot = k } ≡ r = cc in
            inl (
              subst (Describes f k) same
                (inside, (reads.shard, (reads.lane, (reads.endpoint, (refl, (refl, refl)))))))
      ]

  pub add_ranges-described :
      (shard_count : ℕ) (b b' : Building) (fs : List RangeFields) (k : ℕ) (r : Route Endpoint)
      → add_ranges endpoint_key shard_count b fs ≡ ok b'
      → lookup k b'.slots ≡ some r
      → DescribedBy fs k r ⊎ (lookup k b.slots ≡ some r)
  unfolding add_ranges
  add_ranges-described shard_count b b' [] k r h found =
      let same : b ≡ b' = ok_injective h in inr (ap (λ x. lookup k x.slots) same ∙ found)
  add_ranges-described shard_count b b' (f ∷ fs) k r h found =
      let (b1, first, rest) = >>=-eq_ok _ _ h in
      elim (add_ranges-described shard_count b1 b' fs k r rest found) [
        | inl later ↦ inl (inr later)
        | inr there ↦ elim (add_range-described shard_count b b1 f k r first there) [
          | inl here ↦ inl (inl here)
          | inr before ↦ inr before
        ]
      ]
