-- ===== src/Base/Dict.antt =====
-- Go maps as association lists, for every type of keys with a Boolean equality. The laws in `if`
-- form say what a lookup gives after a write.
use ferricstore_go.Base.Tests.{◌==◌, ==_iff, if◌then◌else◌, Bool-cases}
use Prim.Native.Nat.{ℕ, ◌+◌, ◌≤◌}
use mathlib.Core.Path.{◌≡◌, refl, subst}
use mathlib.Core.Logic.{◌↔◌, inl, inr}
use mathlib.Core.Bool.{Bool, true}
use mathlib.Core.Option.{Option, none, some}
use mathlib.Core.List.{List, [], ◌∷◌}
use native.Mathlib.Omega.{arith}

pub record Eq (K : Type 0) : Type 0 where
  pub beq : K → K → Bool
  pub beq_iff : (a b : K) → (beq a b ≡ true) ↔ (a ≡ b)

instance abbrev pub nat_eq : Eq ℕ
nat_eq = record { beq = ◌==◌; beq_iff = ==_iff }

module _ {ℓ} {K : Type 0} ⦃e : Eq K⦄ {V : Type ℓ} where
  unfoldable pub lookup : K → List (K × V) → Option V
  lookup k [] = none
  lookup k ((j, v) ∷ m) = if e.beq j k then some v else lookup k m

  unfoldable pub insert : K → V → List (K × V) → List (K × V)
  insert k v [] = (k, v) ∷ []
  insert k v ((j, w) ∷ m) = if e.beq j k then (k, v) ∷ m else (j, w) ∷ insert k v m

  unfoldable pub delete : K → List (K × V) → List (K × V)
  delete k [] = []
  delete k ((j, w) ∷ m) = let rest = delete k m in if e.beq j k then rest else (j, w) ∷ rest

  -- No key has two entries.
  abbrev pub Unique : List (K × V) → Type ℓ
  Unique [] = Unit {ℓ}
  Unique ((k, v) ∷ m) = (lookup k m ≡ none) × Unique m

  pub lookup-insert :
      (k j : K) (v : V) (m : List (K × V))
      → lookup j (insert k v m) ≡ (if e.beq k j then some v else lookup j m)
  unfolding lookup insert
  lookup-insert k j v [] = refl
  lookup-insert k j v ((i, w) ∷ m) =
      ground (arith, e.beq_iff k j, e.beq_iff i k, e.beq_iff i j, lookup-insert k j v m)

  pub lookup-insert_self : (k : K) (v : V) (m : List (K × V)) → lookup k (insert k v m) ≡ some v
  lookup-insert_self k v m = rw (lookup-insert k k v m, (e.beq_iff k k).1 refl)

  pub lookup-delete :
      (k j : K) (m : List (K × V))
      → lookup j (delete k m) ≡ (if e.beq k j then none else lookup j m)
  unfolding lookup delete
  lookup-delete k j [] = ground arith
  lookup-delete k j ((i, w) ∷ m) =
      ground (arith, e.beq_iff k j, e.beq_iff i k, e.beq_iff i j, lookup-delete k j m)

  -- What is inserted under the key is deleted with it.
  pub delete-insert : (k : K) (v : V) (m : List (K × V)) → delete k (insert k v m) ≡ delete k m
  unfolding insert delete
  delete-insert k v [] = ground (arith, e.beq_iff k k)
  delete-insert k v ((j, w) ∷ m) = ground (arith, e.beq_iff k k, delete-insert k v m)

  pub lookup-delete_self : (k : K) (m : List (K × V)) → lookup k (delete k m) ≡ none
  lookup-delete_self k m = rw (lookup-delete k k m, (e.beq_iff k k).1 refl)

  pub insert-Unique : (k : K) (v : V) (m : List (K × V)) → Unique m → Unique (insert k v m)
  unfolding insert lookup
  insert-Unique k v [] u = (refl, tt)
  insert-Unique k v ((j, w) ∷ m) (h, u) = elim (Bool-cases (e.beq j k)) [
    | inl same ↦ rw same (rw ((e.beq_iff j k).0 same) at h, u)
    | inr other ↦
        rw other (
          ground (arith, lookup-insert k j v m, e.beq_iff k j, e.beq_iff j k),
          insert-Unique k v m u,
        )
  ]

  pub delete-Unique : (k : K) (m : List (K × V)) → Unique m → Unique (delete k m)
  unfolding delete lookup
  delete-Unique k [] u = u
  delete-Unique k ((j, w) ∷ m) (h, u) = elim (Bool-cases (e.beq j k)) [
    | inl same ↦ rw same (delete-Unique k m u)
    | inr other ↦ rw other (ground (arith, lookup-delete k j m), delete-Unique k m u)
  ]

-- The weight under a key, 0 where the key is not there.
abbrev pub weight_at : {V : Type 0} → (V → ℕ) → Option V → ℕ
weight_at weight none = 0
weight_at weight (some v) = weight v

-- Sums over the values of a map.
module _ {K : Type 0} ⦃e : Eq K⦄ {V : Type 0} (weight : V → ℕ) where
  abbrev pub total : List (K × V) → ℕ
  total [] = 0
  total ((k, v) ∷ m) = weight v + total m

  pub total-insert :
      (k : K) (v : V) (m : List (K × V))
      → total (insert k v m) + weight_at weight (lookup k m) ≡ total m + weight v
  unfolding insert lookup
  total-insert k v [] = omega arith
  total-insert k v ((j, w) ∷ m) = elim (Bool-cases (e.beq j k)) [
    | inl same ↦ rw same (omega arith)
    | inr other ↦ rw other (omega (arith, total-insert k v m))
  ]

  pub weight_at-le : (k : K) (m : List (K × V)) → weight_at weight (lookup k m) ≤ total m
  unfolding lookup
  weight_at-le k [] = omega arith
  weight_at-le k ((j, w) ∷ m) = elim (Bool-cases (e.beq j k)) [
    | inl same ↦ rw same (omega arith)
    | inr other ↦ rw other (omega (arith, weight_at-le k m))
  ]

  delete-absent : (k : K) (m : List (K × V)) → lookup k m ≡ none → delete k m ≡ m
  unfolding delete lookup
  delete-absent k [] h = refl
  delete-absent k ((j, w) ∷ m) h = ground (arith, delete-absent k m)

  pub total-delete :
      (k : K) (m : List (K × V))
      → Unique m
      → total (delete k m) + weight_at weight (lookup k m) ≡ total m
  unfolding delete lookup
  total-delete k [] u = omega arith
  total-delete k ((j, w) ∷ m) (h, u) = elim (Bool-cases (e.beq j k)) [
    | inl same ↦ rw (same, delete-absent k m (rw ((e.beq_iff j k).0 same) at h)) (omega arith)
    | inr other ↦ rw other (omega (arith, total-delete k m u))
  ]

-- What holds of every value of a map.
abbrev pub AllValues : {K V : Type 0} → (V → Type 0) → List (K × V) → Type 0
AllValues P [] = Unit {0}
AllValues P ((k, v) ∷ m) = P v × AllValues P m

module _ {K : Type 0} ⦃e : Eq K⦄ {V : Type 0} (P : V → Type 0) where
  pub AllValues-insert :
      (k : K) (v : V) (m : List (K × V)) → P v → AllValues P m → AllValues P (insert k v m)
  unfolding insert
  AllValues-insert k v [] p ps = (p, tt)
  AllValues-insert k v ((j, w) ∷ m) p (q, ps) = elim (Bool-cases (e.beq j k)) [
    | inl same ↦ rw same (p, ps)
    | inr other ↦ rw other (q, AllValues-insert k v m p ps)
  ]

  pub AllValues-delete : (k : K) (m : List (K × V)) → AllValues P m → AllValues P (delete k m)
  unfolding delete
  AllValues-delete k [] ps = tt
  AllValues-delete k ((j, w) ∷ m) (q, ps) = elim (Bool-cases (e.beq j k)) [
    | inl same ↦ rw same (AllValues-delete k m ps)
    | inr other ↦ rw other (q, AllValues-delete k m ps)
  ]

  pub AllValues-lookup :
      (k : K) (v : V) (m : List (K × V)) → AllValues P m → lookup k m ≡ some v → P v
  unfolding lookup
  AllValues-lookup k v [] ps h = cc
  AllValues-lookup k v ((j, w) ∷ m) (q, ps) h = elim (Bool-cases (e.beq j k)) [
    | inl same ↦ let found : w ≡ v = ground arith in subst P found q
    | inr other ↦ AllValues-lookup k v m ps (rw other at h)
  ]
