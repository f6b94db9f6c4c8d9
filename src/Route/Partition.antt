-- ===== src/Route/Partition.antt =====
-- The groups of a plan split the keys: each key is in the group of its own route, once, and in order.
use ferricstore_go.Base.{
  ℕ, ◌+◌, ◌≡◌, refl, ap, sym, subst, ◌∙◌, List, [], ◌∷◌, ◌++◌, take, drop, append_assoc, append-nil,
  take-append, drop-append, Bool, true, false, Option, none, some, Result, ok, err, ◌>>=◌,
  >>=-eq_ok, Bool-cases, inl, inr, if◌then◌else◌, arith,
}
use ferricstore_go.Base.Bytes.{Bytes}
use ferricstore_go.Base.Dict.{lookup, insert}
use ferricstore_go.Route.Plan.{
  PlanError, Route, Topology, Identity, same_identity, same_identity_iff, identity_eq, Group,
  route_identity, route_string_key, validate, find_divergence, single_route, group_keys,
  first_groups, plan_from, plan_routes, invalid_endpoint,
}
use ferricstore_go.Route.Grouping.{
  routed_to, matching, keys_under, group_keys-matching, matching-append, AllRouted, Diverges,
  find_divergence-Diverges, ok_values,
}

pub flip : (a b : Identity) → same_identity a b ≡ false → same_identity b a ≡ false
flip a b h = elim (Bool-cases (same_identity b a)) [
  | inl e ↦ absurd (
      let back : same_identity a b ≡ true =
        (same_identity_iff a b).1 (sym ((same_identity_iff b a).0 e)) in
      cc)
  | inr e ↦ e
]

module _ {E : Type 0} (endpoint_name : E → Bytes) (valid : E → Bool)
    (topology : Option (Topology E)) where
  AllRouted-matching :
      (j i : Identity) (ks : List Bytes)
      → AllRouted endpoint_name valid topology j ks
      → matching endpoint_name valid topology i ks ≡ (if same_identity j i then ks else [])
  unfolding AllRouted
  AllRouted-matching j i [] all = elim (Bool-cases (same_identity j i)) [
    | inl e ↦ rw e refl
    | inr e ↦ rw e refl
  ]
  AllRouted-matching j i (k ∷ ks) (here, all) =
      rw
        (
          moved (route_string_key endpoint_name valid topology k) here,
          AllRouted-matching j i ks all,
        )
        (elim (Bool-cases (same_identity j i)) [ inl e ↦ rw e refl | inr e ↦ rw e refl ])
    where
      moved :
          (o : Result PlanError (Route E))
          → routed_to endpoint_name valid topology j o ≡ true
          → routed_to endpoint_name valid topology i o ≡ same_identity j i
      moved (ok r) e =
          ap (λ a. same_identity a i)
            ((same_identity_iff (route_identity endpoint_name valid r) j).0 e)
      moved (err x) e = absurd cc

  pub validate-same : (r first : Route E) → validate endpoint_name valid r ≡ ok first → r ≡ first
  validate-same r first e = elim (Bool-cases (valid r.endpoint)) [
    | inl fine ↦ ok_values (ok r) r first refl (rw fine at e)
    | inr bad ↦ absurd (let no : err invalid_endpoint ≡ ok first = rw bad at e in cc)
  ]

  -- The groups that the plan starts from hold the first keys under the first route, and the next key under its own.
  first_groups-matching :
      (inc : Bool) (first divergent : Route E) (before : List Bytes) (d : ℕ) (key : Bytes)
      (i : Identity)
      → AllRouted endpoint_name valid topology (route_identity endpoint_name valid first) before
      → route_string_key endpoint_name valid topology key ≡ ok divergent
      → same_identity
          (route_identity endpoint_name valid divergent)
          (route_identity endpoint_name valid first)
        ≡ false
      → keys_under endpoint_name valid topology i
          (first_groups endpoint_name valid topology inc first divergent before d key)
        ≡ matching endpoint_name valid topology i before
          ++ matching endpoint_name valid topology i (key ∷ [])
  unfolding first_groups lookup insert
  first_groups-matching inc first divergent before d key i all routed other =
      rw
        (
          flip (route_identity endpoint_name valid divergent)
              (route_identity endpoint_name valid first) other,
          routed,
          AllRouted-matching (route_identity endpoint_name valid first) i before all,
        )
        (elim (Bool-cases (same_identity (route_identity endpoint_name valid first) i)) [
          | inl here ↦ rw (here, not_both here) (sym (append-nil before))
          | inr away ↦
              rw away
                (elim (Bool-cases
                  (same_identity (route_identity endpoint_name valid divergent) i)) [
                    | inl e ↦ rw e refl
                    | inr e ↦ rw e refl
                  ])
        ])
    where
      not_both :
          same_identity (route_identity endpoint_name valid first) i ≡ true
          → same_identity (route_identity endpoint_name valid divergent) i ≡ false
      not_both here =
          ap (same_identity (route_identity endpoint_name valid divergent))
            (sym ((same_identity_iff (route_identity endpoint_name valid first) i).0 here))
          ∙ other

  -- What a plan promises: without groups, all keys have the first route; with groups, each route's group holds
  -- exactly the keys with that route, in their order.
  abbrev pub Splits : List Bytes → Route E × Option (List (Identity × Group E)) → Type 0
  Splits keys (first, none) =
      matching endpoint_name valid topology (route_identity endpoint_name valid first) keys ≡ keys
  Splits keys (first, some groups) =
      (i : Identity)
      → keys_under endpoint_name valid topology i groups
        ≡ matching endpoint_name valid topology i keys

  plan_from-matching :
      (inc : Bool) (first : Route E) (d : ℕ) (before : List Bytes) (key : Bytes)
      (behind : List Bytes) (groups : List (Identity × Group E)) (i : Identity)
      → AllRouted endpoint_name valid topology (route_identity endpoint_name valid first) before
      → routed_to endpoint_name valid topology
          (route_identity endpoint_name valid first)
          (route_string_key endpoint_name valid topology key)
        ≡ false
      → plan_from endpoint_name valid topology inc first d before (key ∷ behind) ≡ ok groups
      → keys_under endpoint_name valid topology i groups
        ≡ matching endpoint_name valid topology i (before ++ (key ∷ behind))
  unfolding plan_from
  plan_from-matching inc first d before key behind groups i all other e =
      let (r, routed, e1) =
        >>=-eq_ok (route_string_key endpoint_name valid topology key)
          (λ r. validate endpoint_name valid r >>= λ divergent.
            group_keys endpoint_name valid topology inc (d + 1) behind
              (first_groups endpoint_name valid topology inc first divergent before d key))
          e in
      let (divergent, allowed, e2) =
        >>=-eq_ok (validate endpoint_name valid r)
          (λ divergent.
            group_keys endpoint_name valid topology inc (d + 1) behind
              (first_groups endpoint_name valid topology inc first divergent before d key))
          e1 in
      let same : r ≡ divergent = validate-same r divergent allowed in
      group_keys-matching endpoint_name valid topology inc (d + 1) behind _ groups i e2
      ∙ ap (λ t. t ++ matching endpoint_name valid topology i behind)
          (first_groups-matching inc first divergent before d key i all (routed ∙ ap ok same) (
            ap (routed_to endpoint_name valid topology (route_identity endpoint_name valid first))
              (sym (routed ∙ ap ok same))
            ∙ other))
      ∙ append_assoc (matching endpoint_name valid topology i before)
          (matching endpoint_name valid topology i (key ∷ []))
          (matching endpoint_name valid topology i behind)
      ∙ ap (λ t. matching endpoint_name valid topology i before ++ t)
          (sym (matching-append endpoint_name valid topology i (key ∷ []) behind))
      ∙ sym (matching-append endpoint_name valid topology i before (key ∷ behind))

  after-Splits :
      (inc : Bool) (first : Route E) (k : Bytes) (ks : List Bytes) (found : Option ℕ)
      (result : Route E × Option (List (Identity × Group E)))
      → routed_to endpoint_name valid topology
          (route_identity endpoint_name valid first)
          (route_string_key endpoint_name valid topology k)
        ≡ true
      → Diverges endpoint_name valid topology (route_identity endpoint_name valid first) 1 ks found
      → (elim found [
        | none ↦ ok (first, none)
        | some d ↦
            plan_from endpoint_name valid topology inc first d (take d (k ∷ ks)) (drop d (k ∷ ks))
            >>= λ groups. ok (first, some groups)
      ])
        ≡ ok result
      → Splits (k ∷ ks) result
  unfolding Diverges AllRouted
  after-Splits inc first k ks none result here all e =
      subst (Splits (k ∷ ks)) (ok_values (ok (first, none)) (first, none) result refl e)
        (AllRouted-matching j j (k ∷ ks) (here, all) ∙ rw ((same_identity_iff j j).1 refl) refl)
    where
      j : Identity
      j = route_identity endpoint_name valid first
  after-Splits inc first k ks (some d) result here (before, key, behind, split, place, all, other)
        e =
      let (groups, planned, e1) =
        >>=-eq_ok
          (plan_from endpoint_name valid topology inc first d (take d (k ∷ ks)) (drop d (k ∷ ks)))
          (λ groups. ok (first, some groups)) e in
      subst (Splits (k ∷ ks))
        (ok_values (ok (first, some groups)) (first, some groups) result refl e1)
        (λ i.
          plan_from-matching inc first d (k ∷ before) key behind groups i (here, all) other
            (rw (ahead, rest) at planned)
          ∙ ap (λ t. matching endpoint_name valid topology i (k ∷ t)) (sym split))
    where
      whole : k ∷ ks ≡ (k ∷ before) ++ (key ∷ behind)
      whole = ap (λ t. k ∷ t) split

      ahead : take d (k ∷ ks) ≡ k ∷ before
      ahead = ap (take d) whole ∙ take-append d (k ∷ before) (key ∷ behind) (omega (arith, place))

      rest : drop d (k ∷ ks) ≡ key ∷ behind
      rest = ap (drop d) whole ∙ drop-append d (k ∷ before) (key ∷ behind) (omega (arith, place))

  -- A plan that succeeds splits the keys: without groups all of them have the route that is returned, and with
  -- groups each route's group holds exactly the keys with that route, in their order.
  pub plan_routes-Splits :
      (inc : Bool) (keys : List Bytes) (result : Route E × Option (List (Identity × Group E)))
      → plan_routes endpoint_name valid topology inc keys ≡ ok result
      → Splits keys result
  unfolding plan_routes single_route
  plan_routes-Splits inc [] result e = absurd cc
  plan_routes-Splits inc (k ∷ ks) result e =
      let ((first, found), single, e1) =
        >>=-eq_ok (single_route endpoint_name valid topology (k ∷ ks)) (go_on k ks) e in
      let (r, routed, e2) =
        >>=-eq_ok (route_string_key endpoint_name valid topology k) (checked ks) single in
      let (first', allowed, e3) = >>=-eq_ok (validate endpoint_name valid r) (searched ks) e2 in
      let (found', searches, e4) =
        >>=-eq_ok
          (find_divergence endpoint_name valid topology (route_identity endpoint_name valid first')
            1 ks)
          (λ found. ok (first', found)) e3 in
      let same : r ≡ first' = validate-same r first' allowed in
      let pair : (first', found') ≡ (first, found) =
        ok_values (ok (first', found')) (first', found') (first, found) refl e4 in
      after-Splits inc first' k ks found' result
        (ap (routed_to endpoint_name valid topology (route_identity endpoint_name valid first'))
            (routed ∙ ap ok same)
          ∙ (same_identity_iff (route_identity endpoint_name valid first')
                (route_identity endpoint_name valid first')).1
              refl)
        (find_divergence-Diverges endpoint_name valid topology
          (route_identity endpoint_name valid first') 1 ks found' searches)
        (ap (go_on k ks) pair ∙ e1)
    where
      go_on :
          Bytes
          → List Bytes
          → Route E × Option ℕ
          → Result PlanError (Route E × Option (List (Identity × Group E)))
      go_on k ks (first, found) = elim found [
        | none ↦ ok (first, none)
        | some d ↦
            plan_from endpoint_name valid topology inc first d (take d (k ∷ ks)) (drop d (k ∷ ks))
            >>= λ groups. ok (first, some groups)
      ]

      searched : List Bytes → Route E → Result PlanError (Route E × Option ℕ)
      searched ks first =
          find_divergence endpoint_name valid topology (route_identity endpoint_name valid first) 1
            ks
          >>= λ found. ok (first, found)

      checked : List Bytes → Route E → Result PlanError (Route E × Option ℕ)
      checked ks r = validate endpoint_name valid r >>= searched ks
