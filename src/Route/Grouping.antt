-- ===== src/Route/Grouping.antt =====
-- What the loops of a plan do: where the first other route is found, and which keys the groups gain.
use ferricstore_go.Base.{
  ℕ, ◌+◌, ◌≡◌, refl, ap, sym, subst, ◌∙◌, List, [], ◌∷◌, ◌++◌, length, append_assoc, append-nil,
  Bool, true, false, Option, none, some, Result, ok, err, ◌>>=◌, >>=-eq_ok, Option-cases,
  Bool-cases, inl, inr, if◌then◌else◌, arith,
}
use ferricstore_go.Base.Bytes.{Bytes}
use ferricstore_go.Base.Dict.{lookup, insert, lookup-insert}
use ferricstore_go.Route.Plan.{
  PlanError, Route, Topology, Identity, same_identity, same_identity_iff, identity_eq, Group,
  route_identity, route_string_key, validate, find_divergence, group_of, join_group, group_keys,
}

pub ok_values : {X A : Type 0} (o : Result X A) (a b : A) → o ≡ ok a → o ≡ ok b → a ≡ b
ok_values o a b h h' = cc

module _ {E : Type 0} (endpoint_name : E → Bytes) (valid : E → Bool)
    (topology : Option (Topology E)) where
  -- Whether the key's route is this one.
  abbrev pub routed_to : Identity → Result PlanError (Route E) → Bool
  routed_to i (err e) = false
  routed_to i (ok r) = same_identity (route_identity endpoint_name valid r) i

  -- The keys with this route, in order.
  abbrev pub matching : Identity → List Bytes → List Bytes
  matching i [] = []
  matching i (k ∷ ks) =
      if routed_to i (route_string_key endpoint_name valid topology k)
      then k ∷ matching i ks
      else matching i ks

  abbrev pub keys_of : Option (Group E) → List Bytes
  keys_of none = []
  keys_of (some g) = g.keys

  -- The keys that the groups hold for this route.
  abbrev pub keys_under : Identity → List (Identity × Group E) → List Bytes
  keys_under i groups = keys_of (lookup i groups)

  group_of-keys :
      (groups : List (Identity × Group E)) (r : Route E) (g : Group E)
      → group_of endpoint_name valid topology groups r ≡ ok g
      → g.keys ≡ keys_under (route_identity endpoint_name valid r) groups
  unfolding group_of
  group_of-keys groups r g e =
      elim (Option-cases (lookup (route_identity endpoint_name valid r) groups)) [
        | inl absent ↦
            let (r', _, made) =
              >>=-eq_ok (validate endpoint_name valid r)
                (λ r'. ok (record { route = r'; keys = []; positions = [] }))
                (rw (group_of, absent) at e) in
            let same : record { route = r'; keys = []; positions = [] } ≡ g = cc in
            rw (absent, ← same) refl
        | inr (h, found) ↦
            let same : h ≡ g = ok_values _ h g (rw (group_of, found) refl) e in
            rw (found, same) refl
      ]

  -- The last loop adds to each group the keys with its route.
  pub group_keys-matching :
      (include_positions : Bool) (position : ℕ) (ks : List Bytes)
      (groups groups' : List (Identity × Group E)) (i : Identity)
      → group_keys endpoint_name valid topology include_positions position ks groups ≡ ok groups'
      → keys_under i groups' ≡ keys_under i groups ++ matching i ks
  unfolding group_keys
  group_keys-matching inc p [] groups groups' i e =
      ap (keys_under i) (sym (ok_values (ok groups) groups groups' refl e))
      ∙ sym (append-nil (keys_under i groups))
  group_keys-matching inc p (k ∷ ks) groups groups' i e =
      let (r, routed, e1) =
        >>=-eq_ok (route_string_key endpoint_name valid topology k)
          (λ r. group_of endpoint_name valid topology groups r >>= λ g.
            group_keys endpoint_name valid topology inc (p + 1) ks (
              insert (route_identity endpoint_name valid r)
                (join_group endpoint_name valid topology inc p k g) groups))
          e in
      let (g, joined, e2) =
        >>=-eq_ok (group_of endpoint_name valid topology groups r)
          (λ g. group_keys endpoint_name valid topology inc (p + 1) ks (
            insert (route_identity endpoint_name valid r)
              (join_group endpoint_name valid topology inc p k g) groups))
          e1 in
      group_keys-matching inc (p + 1) ks _ groups' i e2 ∙ step r g routed joined
    where
      step :
          (r : Route E) (g : Group E)
          → route_string_key endpoint_name valid topology k ≡ ok r
          → group_of endpoint_name valid topology groups r ≡ ok g
          → keys_under i (
                insert
                  (route_identity endpoint_name valid r)
                  (join_group endpoint_name valid topology inc p k g)
                  groups)
              ++ matching i ks
            ≡ keys_under i groups ++ matching i (k ∷ ks)
      step r g routed joined =
          elim (Bool-cases (same_identity (route_identity endpoint_name valid r) i)) [
            | inl here ↦
                rw
                  (
                    routed,
                    lookup-insert (route_identity endpoint_name valid r) i
                        (join_group endpoint_name valid topology inc p k g) groups,
                    here,
                  )
                  (append_assoc g.keys (k ∷ []) (matching i ks)
                    ∙ ap (λ t. t ++ (k ∷ matching i ks))
                        (group_of-keys groups r g joined
                          ∙ ap (λ j. keys_under j groups)
                              ((same_identity_iff (route_identity endpoint_name valid r) i).0
                                here)))
            | inr away ↦
                rw
                  (
                    routed,
                    lookup-insert (route_identity endpoint_name valid r) i
                        (join_group endpoint_name valid topology inc p k g) groups,
                    away,
                  )
                  refl
          ]

  pub matching-append :
      (i : Identity) (xs ys : List Bytes) → matching i (xs ++ ys) ≡ matching i xs ++ matching i ys
  matching-append i [] ys = refl
  matching-append i (x ∷ xs) ys =
      elim (Bool-cases (routed_to i (route_string_key endpoint_name valid topology x))) [
        | inl here ↦ rw (here, matching-append i xs ys) refl
        | inr away ↦ rw (away, matching-append i xs ys) refl
      ]

  -- All keys have one route.
  unfoldable pub AllRouted : Identity → List Bytes → Type 0
  AllRouted j [] = Unit {0}
  AllRouted j (k ∷ ks) =
      (routed_to j (route_string_key endpoint_name valid topology k) ≡ true) × AllRouted j ks

  -- The keys before the place that is found have the first key's route, and the key there has another.
  unfoldable pub Diverges : Identity → ℕ → List Bytes → Option ℕ → Type 0
  Diverges j off ks none = AllRouted j ks
  Diverges j off ks (some d) =
      (before : List Bytes) × (key : Bytes) × (behind : List Bytes) × (ks
        ≡ before ++ (key ∷ behind))
      × (d ≡ off + length before)
      × AllRouted j before
      × ((routed_to j (route_string_key endpoint_name valid topology key)) ≡ false)

  pub find_divergence-Diverges :
      (j : Identity) (off : ℕ) (ks : List Bytes) (found : Option ℕ)
      → find_divergence endpoint_name valid topology j off ks ≡ ok found
      → Diverges j off ks found
  unfolding find_divergence AllRouted Diverges
  find_divergence-Diverges j off [] found e =
      subst (Diverges j off []) (ok_values (ok none) none found refl e) tt
  find_divergence-Diverges j off (k ∷ ks) found e =
      let (r, routed, e1) =
        >>=-eq_ok (route_string_key endpoint_name valid topology k)
          (λ r.
            if same_identity (route_identity endpoint_name valid r) j
            then find_divergence endpoint_name valid topology j (off + 1) ks
            else ok (some off))
          e in
      (elim (Bool-cases (same_identity (route_identity endpoint_name valid r) j)) [
        | inl here ↦
            longer found (rw (routed, here) refl)
              (find_divergence-Diverges j (off + 1) ks found (rw here at e1))
        | inr away ↦
            subst (Diverges j off (k ∷ ks))
              (ok_values (ok (some off)) (some off) found refl (rw away at e1))
              ([], k, ks, refl, omega arith, tt, rw (routed, away) refl)
      ])
    where
      longer :
          (found : Option ℕ)
          → routed_to j (route_string_key endpoint_name valid topology k) ≡ true
          → Diverges j (off + 1) ks found
          → Diverges j off (k ∷ ks) found
      longer none here all = (here, all)
      longer (some d) here (before, key, behind, split, place, all, other) =
          (k ∷ before, key, behind, ap (λ t. k ∷ t) split, omega (arith, place), (here, all), other)
