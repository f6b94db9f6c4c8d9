-- ===== src/Route/Scatter/Planned.antt =====
-- A plan with groups places all of its keys, so an MGET over them gives every key's value at its position.
use ferricstore_go.Base.{
  ℕ, zero, suc, ◌+◌, ◌≤◌, ◌<◌, ◌≡◌, refl, ap, sym, subst, ◌∙◌, List, [], ◌∷◌, ◌++◌, map, take, drop,
  length, length-append, get_elem?, append_assoc, take-append, drop-append, Bool, true, false,
  Option, none, some, ok, ◌>>=◌, >>=-eq_ok, ◌==◌, Bool-cases, inl, inr, arith,
}
use ferricstore_go.Base.Bytes.{Bytes}
use ferricstore_go.Base.Dict.{lookup, insert}
use ferricstore_go.Route.Plan.{
  Route, Topology, Identity, same_identity, same_identity_iff, identity_eq, Group, route_identity,
  route_string_key, validate, group_keys, numbers, first_groups, plan_from,
}
use ferricstore_go.Route.Grouping.{routed_to, Diverges, ok_values}
use ferricstore_go.Route.Partition.{validate-same, flip}
use ferricstore_go.Route.Scatter.Placing.{
  member, Aligned, Placed, Covered, Joins, joined-Placed, joined-Covered, group_keys-places,
  get_elem?-middle,
}

module _ {E : Type 0} (endpoint_name : E → Bytes) (valid : E → Bool)
    (topology : Option (Topology E)) where
  numbers-keys :
      (pre before rest : List Bytes)
      → map
          (get_elem? (pre ++ (before ++ rest)))
          (numbers endpoint_name valid topology (length pre) (length before))
        ≡ map some before
  numbers-keys pre [] rest = refl
  numbers-keys pre (b ∷ before) rest = rw (get_elem?-middle pre b (before ++ rest)) (
      ap (λ t. some b ∷ t)
        (ap
            (λ n.
              map (get_elem? (pre ++ (b ∷ (before ++ rest))))
                (numbers endpoint_name valid topology n (length before)))
            (sym (length-append pre (b ∷ [])))
          ∙ ap
              (λ l.
                map (get_elem? l)
                  (numbers endpoint_name valid topology (length (pre ++ (b ∷ []))) (length before)))
              (sym (append_assoc pre (b ∷ []) (before ++ rest)))
          ∙ numbers-keys (pre ++ (b ∷ [])) before rest))

  member-numbers :
      (from n p : ℕ)
      → from ≤ p
      → p < from + n
      → member p (numbers endpoint_name valid topology from n) ≡ true
  member-numbers from zero p low high = absurd (omega (arith, low, high))
  member-numbers from (suc n) p low high = elim (Bool-cases (from == p)) [
    | inl here ↦ rw here refl
    | inr away ↦
        rw (away, member-numbers (from + 1) n p (ground (arith, low, away)) (omega (arith, high)))
          refl
  ]

  -- Where a plan with groups divides the keys.
  unfoldable pub Divided : Route E → List Bytes → List (Identity × Group E) → Type 0
  Divided first keys groups =
      (before : List Bytes) × ((key : Bytes) × ((behind : List Bytes) × ((keys
              ≡ before ++ (key ∷ behind))
            × ((routed_to endpoint_name valid topology (route_identity endpoint_name valid first)
                    (route_string_key endpoint_name valid topology key)
                  ≡ false)
                × (plan_from endpoint_name valid topology true first (length before) before
                      (key ∷ behind)
                    ≡ ok groups)))))

  pub after-Divided :
      (first : Route E) (k : Bytes) (ks : List Bytes) (found : Option ℕ)
      (result : Route E × Option (List (Identity × Group E))) (groups : List (Identity × Group E))
      → Diverges endpoint_name valid topology (route_identity endpoint_name valid first) 1 ks found
      → (elim found [
        | none ↦ ok (first, none)
        | some d ↦
            plan_from endpoint_name valid topology true first d (take d (k ∷ ks)) (drop d (k ∷ ks))
            >>= λ groups. ok (first, some groups)
      ])
        ≡ ok result
      → result.1 ≡ some groups
      → Divided first (k ∷ ks) groups
  unfolding Diverges Divided
  after-Divided first k ks none result groups all e grouped = absurd (
      let none_yet : (first, none) ≡ result = ok_values (ok (first, none)) _ result refl e in
      let no : none ≡ some groups = ap (λ x. x.1) none_yet ∙ grouped in cc)
  after-Divided first k ks (some d) result groups (before, key, behind, split, place, all, other) e
        grouped =
      let (groups', planned, e1) =
        >>=-eq_ok
          (plan_from endpoint_name valid topology true first d (take d (k ∷ ks)) (drop d (k ∷ ks)))
          (λ groups. ok (first, some groups)) e in
      let whole_result : (first, some groups') ≡ result =
        ok_values (ok (first, some groups')) _ result refl e1 in
      let same : groups' ≡ groups = some_injective (ap (λ x. x.1) whole_result ∙ grouped) in
      (
        k ∷ before,
        (
          key,
          (
            behind,
            (
              whole,
              (
                other,
                subst
                    (λ n.
                      plan_from endpoint_name valid topology true first n (k ∷ before)
                        (key ∷ behind)
                      ≡ ok groups)
                    (omega (arith, place)) ((rw (ahead, rest) at planned) ∙ ap ok same),
              ),
            ),
          ),
        ),
      )
    where
      some_injective : {A : Type 0} {a b : A} → some a ≡ some b → a ≡ b
      some_injective h = cc

      whole : k ∷ ks ≡ (k ∷ before) ++ (key ∷ behind)
      whole = ap (λ t. k ∷ t) split

      ahead : take d (k ∷ ks) ≡ k ∷ before
      ahead = ap (take d) whole ∙ take-append d (k ∷ before) (key ∷ behind) (omega (arith, place))

      rest : drop d (k ∷ ks) ≡ key ∷ behind
      rest = ap (drop d) whole ∙ drop-append d (k ∷ before) (key ∷ behind) (omega (arith, place))

  first_groups-places :
      (first divergent : Route E) (before : List Bytes) (key : Bytes) (behind : List Bytes)
      → same_identity
          (route_identity endpoint_name valid first)
          (route_identity endpoint_name valid divergent)
        ≡ false
      → Placed (before ++ (key ∷ behind)) (
          first_groups endpoint_name valid topology true first divergent before (length before) key)
        × Covered (length before + 1) (
            first_groups endpoint_name valid topology true first divergent before
              (length before)
              key)
  unfolding first_groups Joins lookup insert
  first_groups-places first divergent before key behind other = (
    joined-Placed endpoint_name valid topology divergent alone fresh (before ++ (key ∷ behind))
        (length before) key joins placed (get_elem?-middle before key behind),
    joined-Covered endpoint_name valid topology divergent alone fresh (length before) key joins
        covered,
  )
    where
      own : Group E
      own = record {
        route = first;
        keys = before;
        positions = numbers endpoint_name valid topology 0 (length before);
      }

      fresh : Group E
      fresh = record { route = divergent; keys = []; positions = [] }

      alone : List (Identity × Group E)
      alone = (route_identity endpoint_name valid first, own) ∷ []

      joins : Joins endpoint_name valid topology divergent alone fresh
      joins = inr (rw other refl, (refl, refl))

      placed : Placed (before ++ (key ∷ behind)) alone
      placed i g found =
          elim (Bool-cases (same_identity (route_identity endpoint_name valid first) i)) [
            | inl here ↦
                let it : some own ≡ some g = rw here at found in
                let same : own ≡ g = cc in
                subst (Aligned (before ++ (key ∷ behind))) same
                  (numbers-keys [] before (key ∷ behind))
            | inr away ↦ absurd (let no : none ≡ some g = rw away at found in cc)
          ]

      covered : Covered (length before) alone
      covered p low = (
        route_identity endpoint_name valid first,
        (
          own,
          (
            rw ((same_identity_iff (route_identity endpoint_name valid first) _).1 refl) refl,
            member-numbers 0 (length before) p (omega arith) (omega (arith, low)),
          ),
        ),
      )

  pub plan_from-places :
      (first : Route E) (before : List Bytes) (key : Bytes) (behind : List Bytes)
      (groups : List (Identity × Group E))
      → routed_to endpoint_name valid topology
          (route_identity endpoint_name valid first)
          (route_string_key endpoint_name valid topology key)
        ≡ false
      → plan_from endpoint_name valid topology true first (length before) before (key ∷ behind)
        ≡ ok groups
      → Placed (before ++ (key ∷ behind)) groups
        × Covered (length (before ++ (key ∷ behind))) groups
  unfolding plan_from
  plan_from-places first before key behind groups other e =
      let (r, routed, e1) =
        >>=-eq_ok (route_string_key endpoint_name valid topology key)
          (λ r. validate endpoint_name valid r >>= λ divergent.
            group_keys endpoint_name valid topology true (length before + 1) behind (
              first_groups endpoint_name valid topology true first divergent before (length before)
                key))
          e in
      let (divergent, allowed, e2) =
        >>=-eq_ok (validate endpoint_name valid r)
          (λ divergent. group_keys endpoint_name valid topology true (length before + 1) behind (
            first_groups endpoint_name valid topology true first divergent before (length before)
              key))
          e1 in
      let same : r ≡ divergent = validate-same endpoint_name valid topology r divergent allowed in
      let apart =
        ap (routed_to endpoint_name valid topology (route_identity endpoint_name valid first))
          (sym (routed ∙ ap ok same))
        ∙ other in
      let (placed, covered) =
        first_groups-places first divergent before key behind (flip _ _ apart) in
      let longer : length before + 1 ≡ length (before ++ (key ∷ [])) =
        sym (length-append before (key ∷ [])) in
      group_keys-places endpoint_name valid topology (before ++ (key ∷ behind))
        (before ++ (key ∷ [])) behind _ groups (sym (append_assoc before (key ∷ []) behind)) placed
        (subst
          (λ n. Covered n (
            first_groups endpoint_name valid topology true first divergent before (length before)
              key))
          longer covered)
        (subst
          (λ n.
            group_keys endpoint_name valid topology true n behind (
              first_groups endpoint_name valid topology true first divergent before (length before)
                key)
            ≡ ok groups)
          longer e2)
