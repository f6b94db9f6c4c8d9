-- ===== src/Route/Scatter/Placing.antt =====
-- The positions of a plan's groups are those of their keys, and every position is in a group.
use ferricstore_go.Base.{
  ℕ, ◌+◌, ◌<◌, ◌≡◌, refl, ap, sym, subst, ◌∙◌, List, [], ◌∷◌, ◌++◌, map, length, get_elem?,
  length-append, append-nil, append_assoc, Bool, true, false, ◌||◌, Option, none, some, ok, ◌>>=◌,
  >>=-eq_ok, ◌==◌, Bool-cases, Option-cases, ◌⊎◌, inl, inr, arith,
}
use mathlib.Core.List.{map-append}
use ferricstore_go.Base.Bytes.{Bytes}
use ferricstore_go.Base.Dict.{lookup, insert, lookup-insert, lookup-insert_self}
use ferricstore_go.Route.Plan.{
  Route, Topology, Identity, same_identity, same_identity_iff, identity_eq, Group, route_identity,
  route_string_key, validate, group_of, join_group, group_keys,
}
use ferricstore_go.Route.Grouping.{ok_values}

abbrev pub member : ℕ → List ℕ → Bool
member p [] = false
member p (q ∷ qs) = q == p || member p qs

pub member-append : (p : ℕ) (xs ys : List ℕ) → member p (xs ++ ys) ≡ (member p xs || member p ys)
member-append p [] ys = refl
member-append p (x ∷ xs) ys = rw (member-append p xs ys) (ground arith)

pub get_elem?-middle :
    (before : List Bytes) (k : Bytes) (behind : List Bytes)
    → get_elem? (before ++ (k ∷ behind)) (length before) ≡ some k
get_elem?-middle [] k behind = refl
get_elem?-middle (b ∷ before) k behind = get_elem?-middle before k behind

-- The keys of a group are those at its positions.
abbrev pub Aligned : {E : Type 0} → List Bytes → Group E → Type 0
Aligned keys g = map (get_elem? keys) g.positions ≡ map some g.keys

abbrev pub Placed : {E : Type 0} → List Bytes → List (Identity × Group E) → Type 0
Placed {E} keys groups = (i : Identity) (g : Group E) → lookup i groups ≡ some g → Aligned keys g

abbrev pub Covered : {E : Type 0} → ℕ → List (Identity × Group E) → Type 0
Covered {E} n groups =
    (p : ℕ)
    → p < n
    → (i : Identity) × ((g : Group E) × ((lookup i groups ≡ some g)
          × (member p g.positions ≡ true)))

module _ {E : Type 0} (endpoint_name : E → Bytes) (valid : E → Bool)
    (topology : Option (Topology E)) where
  -- A key joins the group under its route, or a new one.
  unfoldable pub Joins : Route E → List (Identity × Group E) → Group E → Type 0
  Joins r groups g =
      (lookup (route_identity endpoint_name valid r) groups ≡ some g)
      ⊎ ((lookup (route_identity endpoint_name valid r) groups ≡ none)
          × ((g.keys ≡ []) × (g.positions ≡ [])))

  group_of-Joins :
      (groups : List (Identity × Group E)) (r : Route E) (g : Group E)
      → group_of endpoint_name valid topology groups r ≡ ok g
      → Joins r groups g
  unfolding group_of Joins
  group_of-Joins groups r g e =
      elim (Option-cases (lookup (route_identity endpoint_name valid r) groups)) [
        | inl absent ↦
            let (r', _, made) =
              >>=-eq_ok (validate endpoint_name valid r)
                (λ r'. ok (record { route = r'; keys = []; positions = [] }))
                (rw (group_of, absent) at e) in
            let same : record { route = r'; keys = []; positions = [] } ≡ g = cc in
            inr (absent, (ap (λ x. x.keys) (sym same), ap (λ x. x.positions) (sym same)))
        | inr (h, found) ↦
            let same : h ≡ g = ok_values _ h g (rw (group_of, found) refl) e in
            inl (found ∙ ap some same)
      ]

  Joins-Aligned :
      (r : Route E) (groups : List (Identity × Group E)) (g : Group E) (keys : List Bytes)
      → Joins r groups g
      → Placed keys groups
      → Aligned keys g
  unfolding Joins
  Joins-Aligned r groups g keys (inl here) placed = placed _ g here
  Joins-Aligned r groups g keys (inr (_, (none_yet, no_place))) placed =
      rw (none_yet, no_place) refl

  pub joined-Placed :
      (r : Route E) (groups : List (Identity × Group E)) (g : Group E) (keys : List Bytes) (p : ℕ)
      (k : Bytes)
      → Joins r groups g
      → Placed keys groups
      → get_elem? keys p ≡ some k
      → Placed keys (
          insert
            (route_identity endpoint_name valid r)
            (join_group endpoint_name valid topology true p k g)
            groups)
  joined-Placed r groups g keys p k joins placed there j h found =
      elim (Bool-cases (same_identity (route_identity endpoint_name valid r) j)) [
        | inl here ↦
            let same : some (join_group endpoint_name valid topology true p k g) ≡ some h =
              (rw
                (
                  lookup-insert (route_identity endpoint_name valid r) j
                      (join_group endpoint_name valid topology true p k g) groups,
                  here,
                )
                at found) in
            subst (Aligned keys) (some_injective same) (
              map-append (get_elem? keys) g.positions (p ∷ [])
              ∙ ap (λ t. t ++ (get_elem? keys p ∷ [])) (Joins-Aligned r groups g keys joins placed)
              ∙ ap (λ t. map some g.keys ++ (t ∷ [])) there
              ∙ sym (map-append some g.keys (k ∷ [])))
        | inr away ↦ placed j h (
            rw
              (
                lookup-insert (route_identity endpoint_name valid r) j
                    (join_group endpoint_name valid topology true p k g) groups,
                away,
              )
              at found)
      ]
    where
      some_injective : {a b : Group E} → some a ≡ some b → a ≡ b
      some_injective e = cc

  pub joined-Covered :
      (r : Route E) (groups : List (Identity × Group E)) (g : Group E) (p : ℕ) (k : Bytes)
      → Joins r groups g
      → Covered p groups
      → Covered (p + 1) (
          insert
            (route_identity endpoint_name valid r)
            (join_group endpoint_name valid topology true p k g)
            groups)
  unfolding Joins
  joined-Covered r groups g p k joins covered q h = elim (Bool-cases (p == q)) [
    | inl here ↦ (i, (joined, (lookup-insert_self i joined groups, there here)))
    | inr away ↦
        let (j, (old, (found, within))) = covered q (ground (arith, h, away)) in
        elim (Bool-cases (same_identity i j)) [
          | inl same ↦
              let now : old ≡ g =
                was_found joins
                  (ap (λ x. lookup x groups) ((same_identity_iff i j).0 same) ∙ found) in
              (
                i,
                (
                  joined,
                  (
                    lookup-insert_self i joined groups,
                    member-append q g.positions (p ∷ [])
                        ∙ rw (sym (ap (λ x. member q x.positions) now) ∙ within) refl,
                  ),
                ),
              )
          | inr other ↦ (j, (old, (rw (lookup-insert i j joined groups, other) found, within)))
        ]
  ]
    where
      i : Identity
      i = route_identity endpoint_name valid r

      joined : Group E
      joined = join_group endpoint_name valid topology true p k g

      there : (p == q) ≡ true → member q joined.positions ≡ true
      there here = member-append q g.positions (p ∷ []) ∙ ground (arith, here)

      was_found : {old : Group E} → Joins r groups g → lookup i groups ≡ some old → old ≡ g
      was_found (inl at_hand) found = cc
      was_found (inr (absent, _)) found = cc

  -- The last loop of a plan places each key that it meets.
  pub group_keys-places :
      (keys : List Bytes) (before ks : List Bytes) (groups groups' : List (Identity × Group E))
      → keys ≡ before ++ ks
      → Placed keys groups
      → Covered (length before) groups
      → group_keys endpoint_name valid topology true (length before) ks groups ≡ ok groups'
      → Placed keys groups' × Covered (length keys) groups'
  unfolding group_keys
  group_keys-places keys before [] groups groups' whole placed covered e =
      let same : groups ≡ groups' = ok_values (ok groups) groups groups' refl e in
      (
        subst (Placed keys) same placed,
        subst (Covered (length keys)) same
            (subst (λ n. Covered n groups) (ap length (sym (whole ∙ append-nil before))) covered),
      )
  group_keys-places keys before (k ∷ ks) groups groups' whole placed covered e =
      let (r, routed, e1) =
        >>=-eq_ok (route_string_key endpoint_name valid topology k)
          (λ r. group_of endpoint_name valid topology groups r >>= λ g.
            group_keys endpoint_name valid topology true (length before + 1) ks (
              insert (route_identity endpoint_name valid r)
                (join_group endpoint_name valid topology true (length before) k g) groups))
          e in
      let (g, made, e2) =
        >>=-eq_ok (group_of endpoint_name valid topology groups r)
          (λ g. group_keys endpoint_name valid topology true (length before + 1) ks (
            insert (route_identity endpoint_name valid r)
              (join_group endpoint_name valid topology true (length before) k g) groups))
          e1 in
      let joins = group_of-Joins groups r g made in
      let longer : length before + 1 ≡ length (before ++ (k ∷ [])) =
        sym (length-append before (k ∷ [])) in
      group_keys-places keys (before ++ (k ∷ [])) ks _ groups'
        (whole ∙ sym (append_assoc before (k ∷ []) ks))
        (joined-Placed r groups g keys (length before) k joins placed
          (ap (λ t. get_elem? t (length before)) whole ∙ get_elem?-middle before k ks))
        (subst
          (λ n. Covered n (
            insert (route_identity endpoint_name valid r)
              (join_group endpoint_name valid topology true (length before) k g) groups))
          longer (joined-Covered r groups g (length before) k joins covered))
        (subst
          (λ n.
            group_keys endpoint_name valid topology true n ks (
              insert (route_identity endpoint_name valid r)
                (join_group endpoint_name valid topology true (length before) k g) groups)
            ≡ ok groups')
          longer e2)
