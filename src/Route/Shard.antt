-- ===== src/Route/Shard.antt =====
-- The keys of a command and the one slot they share, topology_routing.go. What `asInt64` makes of an argument is
-- the argument `as_int64`.
use ferricstore_go.Base.{
  ℕ, ◌≤◌, ◌≡◌, refl, ap, sym, ◌∙◌, List, [], ◌∷◌, length, take, All, Bool, false, ◌&&◌, ◌||◌, not,
  Option, none, some, Option-cases, Bool-cases, inl, inr, ltb, ◌==◌, ==_iff, if◌then◌else◌,
  length-take, arith,
}
use ferricstore_go.Base.Int.{ℤ, pos, negsuc}
use ferricstore_go.Base.Bytes.{Bytes}
use ferricstore_go.Route.Slot.{route_slot_for_string, route_slot_count}

-- A key of a routing plan: a slot that is named, a text, or a value that cannot be routed.
pub data RouteKey : Type 0 where
  named : ℕ → RouteKey
  text : Bytes → RouteKey
  unroutable : RouteKey

-- `routingTargetSlot`
unfoldable pub routing_target_slot : RouteKey → Option ℕ
routing_target_slot (named n) = if ltb n route_slot_count then some n else none
routing_target_slot (text b) = some (route_slot_for_string b)
routing_target_slot unroutable = none

-- The loop of `singleShardKey`, with the first key and its slot.
unfoldable pub shard_loop : Option (RouteKey × ℕ) → List RouteKey → Option (RouteKey × ℕ)
shard_loop found [] = found
shard_loop none (k ∷ ks) = elim (routing_target_slot k) [
  | none ↦ none
  | some s ↦ shard_loop (some (k, s)) ks
]
shard_loop (some (first, slot)) (k ∷ ks) = elim (routing_target_slot k) [
  | none ↦ none
  | some s ↦ let rest = shard_loop (some (first, slot)) ks in if s == slot then rest else none
]

-- `singleShardKey`
unfoldable pub single_shard_key : List RouteKey → Option RouteKey
single_shard_key keys = elim (shard_loop none keys) [
  | none ↦ none
  | some (first, slot) ↦ some first
]

-- `boundedRoutingCount`
unfoldable pub bounded_routing_count : ℤ → ℕ → Bool → Option ℕ
bounded_routing_count (negsuc n) available allow_zero = none
bounded_routing_count (pos n) available allow_zero =
    if (not allow_zero && n == 0) || ltb available n then none else some n

module _ {A : Type 0} (as_int64 : A → ℤ) where
  abbrev pub first_of : Option ℕ → List A → Option (List A)
  first_of none args = none
  first_of (some n) args = some (take n args)

  -- `countedReadKeys`: the name, the count, then the keys.
  unfoldable pub counted_read_keys : List A → Option (List A)
  counted_read_keys (name ∷ count ∷ key ∷ args) =
      first_of (bounded_routing_count (as_int64 count) (length (key ∷ args)) false) (key ∷ args)
  counted_read_keys _ = none

  abbrev pub with_target : A → Option (List A) → Option (List A)
  with_target target none = none
  with_target target (some keys) = some (target ∷ keys)

  -- `countedStoreKeys`: the name, the target, the count, then the keys.
  unfoldable pub counted_store_keys : List A → Option (List A)
  counted_store_keys (name ∷ target ∷ count ∷ key ∷ args) =
      with_target target
        (first_of (bounded_routing_count (as_int64 count) (length (key ∷ args)) false) (key ∷ args))
  counted_store_keys _ = none

some_values : {A : Type 0} (o : Option A) (a b : A) → o ≡ some a → o ≡ some b → a ≡ b
some_values o a b h h' = cc

shard_loop-slot :
    (first : RouteKey) (slot : ℕ) (ks : List RouteKey) (k : RouteKey) (s : ℕ)
    → shard_loop (some (first, slot)) ks ≡ some (k, s)
    → (k ≡ first) × (s ≡ slot) × All (λ j. routing_target_slot j ≡ some slot) ks
unfolding shard_loop
shard_loop-slot first slot [] k s e =
    let same : (first, slot) ≡ (k, s) =
      some_values (some (first, slot)) (first, slot) (k, s) refl e in
    (ap (λ p. p.0) (sym same), ap (λ p. p.1) (sym same), tt)
shard_loop-slot first slot (j ∷ ks) k s e = elim (Option-cases (routing_target_slot j)) [
  | inl bad ↦ absurd (let no : none ≡ some (k, s) = rw (shard_loop, bad) at e in cc)
  | inr (t, good) ↦ elim (Bool-cases (t == slot)) [
    | inl same ↦
        let (one, two, all) =
          shard_loop-slot first slot ks k s (rw (shard_loop, good, same) at e) in
        (one, two, (good ∙ ap some ((==_iff t slot).0 same), all))
    | inr other ↦ absurd (let no : none ≡ some (k, s) = rw (shard_loop, good, other) at e in cc)
  ]
]

-- What `single_shard_key` promises of a key that it answers: it is the first one, it has a slot, and every key
-- has the same one.
abbrev pub SameShard : List RouteKey → RouteKey → Type 0
SameShard [] first = ⊥
SameShard (k ∷ ks) first =
    (first ≡ k) × ((slot : ℕ) × (All (λ j. routing_target_slot j ≡ some slot) (k ∷ ks)))

-- Where a command's keys are given one routing key, there is a key, the answer is the first of them, and all
-- keys have the same slot.
pub single_shard_key-SameShard :
    (keys : List RouteKey) (first : RouteKey)
    → single_shard_key keys ≡ some first
    → SameShard keys first
unfolding single_shard_key shard_loop
single_shard_key-SameShard [] first e = cc
single_shard_key-SameShard (k ∷ ks) first e = elim (Option-cases (routing_target_slot k)) [
  | inl bad ↦
      absurd (let no : none ≡ some first = rw (single_shard_key, shard_loop, bad) at e in cc)
  | inr (slot, good) ↦ elim (Option-cases (shard_loop (some (k, slot)) ks)) [
    | inl bad ↦
        absurd
          (let no : none ≡ some first = rw (single_shard_key, shard_loop, good, bad) at e in cc)
    | inr ((k', s), found) ↦
        let (one, _, all) = shard_loop-slot k slot ks k' s found in
        let answered : k' ≡ first =
          some_values (some k') k' first refl
            (rw (single_shard_key, shard_loop, good, found) at e) in
        (sym answered ∙ one, (slot, (good, all)))
  ]
]

-- The keys that are counted off for a reading command follow the count, and there are as many as it says, at
-- least one.
pub counted_read_keys-count :
    {A : Type 0} (as_int64 : A → ℤ) (name count : A) (args keys : List A)
    → counted_read_keys as_int64 (name ∷ count ∷ args) ≡ some keys
    → (as_int64 count ≡ pos (length keys)) × (1 ≤ length keys) × (keys ≡ take (length keys) args)
unfolding counted_read_keys
counted_read_keys-count as_int64 name count [] keys e = absurd cc
counted_read_keys-count as_int64 name count (key ∷ args) keys e = by_count (as_int64 count) refl
  where
    by_count :
        (z : ℤ)
        → as_int64 count ≡ z
        → (as_int64 count ≡ pos (length keys))
          × (1 ≤ length keys)
          × (keys ≡ take (length keys) (key ∷ args))
    by_count (negsuc n) at_count =
        absurd (let no : none ≡ some keys = unfold bounded_routing_count in rw at_count at e in cc)
    by_count (pos n) at_count =
        elim (Bool-cases ((not false && n == 0) || ltb (length (key ∷ args)) n)) [
          | inl bad ↦ absurd (
              let no : none ≡ some keys = unfold bounded_routing_count in rw (at_count, bad) at e in
              cc)
          | inr good ↦
              let taken : take n (key ∷ args) ≡ keys =
                some_values (some (take n (key ∷ args))) (take n (key ∷ args)) keys refl
                  (unfold bounded_routing_count in rw (at_count, good) at e) in
              let long : length keys ≡ n =
                ap length (sym taken) ∙ length-take n (key ∷ args) ∙ ground (arith, good) in
              (
                at_count ∙ ap pos (sym long),
                ground (arith, good, long),
                sym taken ∙ ap (λ m. take m (key ∷ args)) (sym long),
              )
        ]
