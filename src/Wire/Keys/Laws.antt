-- ===== src/Wire/Keys/Laws.antt =====
-- Sorting by keys rearranges the entries of a map and looks at nothing but the keys.
use ferricstore_go.Base.{
  ℕ, suc, ◌+◌, ◌≡◌, refl, ap, ◌∙◌, false, ◌||◌, List, [], ◌∷◌, length, All, arith, inl, inr,
  Bool-cases,
}
use ferricstore_go.Base.Bytes.{Bytes, bytes_eq, bytes_eq_comm, bytes_lt}
use ferricstore_go.Wire.Value.{has_key, Distinct}
use ferricstore_go.Wire.Keys.{insert_key, sort_keys, map_values}

module _ {ℓ κ} {A : Type ℓ} {B : Type κ} (f : A → B) where
  insert_key-map_values :
      (k : Bytes) (a : A) (es : List (Bytes × A))
      → insert_key k (f a) (map_values f es) ≡ map_values f (insert_key k a es)
  unfolding insert_key
  insert_key-map_values k a [] = refl
  insert_key-map_values k a ((j, b) ∷ es) = elim (Bool-cases (bytes_lt j k)) [
    | inl e ↦ rw e (ap (λ t. (j, f b) ∷ t) (insert_key-map_values k a es))
    | inr e ↦ rw e
  ]

  pub sort_keys-map_values :
      (es : List (Bytes × A)) → sort_keys (map_values f es) ≡ map_values f (sort_keys es)
  unfolding sort_keys
  sort_keys-map_values [] = refl
  sort_keys-map_values ((k, a) ∷ es) =
      ap (insert_key k (f a)) (sort_keys-map_values es) ∙ insert_key-map_values k a (sort_keys es)

module _ {ℓ κ} {A : Type ℓ} (P : Bytes × A → Type κ) where
  All-insert_key :
      (k : Bytes) (a : A) (es : List (Bytes × A)) → P (k, a) → All P es → All P (insert_key k a es)
  unfolding insert_key
  All-insert_key k a [] p ps = (p, ps)
  All-insert_key k a ((j, b) ∷ es) p ps = elim (Bool-cases (bytes_lt j k)) [
    | inl e ↦ rw e (ps.0, All-insert_key k a es p ps.1)
    | inr e ↦ rw e (p, ps)
  ]

  All-insert_key_inv :
      (k : Bytes) (a : A) (es : List (Bytes × A)) → All P (insert_key k a es) → P (k, a) × All P es
  unfolding insert_key
  All-insert_key_inv k a [] ps = ps
  All-insert_key_inv k a ((j, b) ∷ es) ps = elim (Bool-cases (bytes_lt j k)) [
    | inl e ↦
        let qs : All P ((j, b) ∷ insert_key k a es) = rw e at ps in
        let (p, rest) = All-insert_key_inv k a es qs.1 in (p, (qs.0, rest))
    | inr e ↦ let qs : All P ((k, a) ∷ (j, b) ∷ es) = rw e at ps in qs
  ]

  -- Whatever holds of every entry holds of every sorted entry, and the other way round.
  pub All-sort_keys : (es : List (Bytes × A)) → All P es → All P (sort_keys es)
  unfolding sort_keys
  All-sort_keys [] ps = ps
  All-sort_keys ((k, a) ∷ es) (p, ps) = All-insert_key k a (sort_keys es) p (All-sort_keys es ps)

  pub All-sort_keys_inv : (es : List (Bytes × A)) → All P (sort_keys es) → All P es
  unfolding sort_keys
  All-sort_keys_inv [] ps = ps
  All-sort_keys_inv ((k, a) ∷ es) ps =
      let (p, rest) = All-insert_key_inv k a (sort_keys es) ps in (p, All-sort_keys_inv es rest)

module _ {ℓ} {A : Type ℓ} where
  -- The sum of a weight over the entries.
  abbrev pub total : (Bytes × A → ℕ) → List (Bytes × A) → ℕ
  total w [] = 0
  total w (e ∷ es) = w e + total w es

  total-insert_key :
      (w : Bytes × A → ℕ) (k : Bytes) (a : A) (es : List (Bytes × A))
      → total w (insert_key k a es) ≡ w (k, a) + total w es
  unfolding insert_key
  total-insert_key w k a [] = refl
  total-insert_key w k a ((j, b) ∷ es) = elim (Bool-cases (bytes_lt j k)) [
    | inl e ↦ rw e (omega (arith, total-insert_key w k a es))
    | inr e ↦ rw e
  ]

  pub total-sort_keys :
      (w : Bytes × A → ℕ) (es : List (Bytes × A)) → total w (sort_keys es) ≡ total w es
  unfolding sort_keys
  total-sort_keys w [] = refl
  total-sort_keys w ((k, a) ∷ es) =
      omega (arith, total-insert_key w k a (sort_keys es), total-sort_keys w es)

  length-insert_key :
      (k : Bytes) (a : A) (es : List (Bytes × A)) → length (insert_key k a es) ≡ suc (length es)
  unfolding insert_key
  length-insert_key k a [] = refl
  length-insert_key k a ((j, b) ∷ es) = elim (Bool-cases (bytes_lt j k)) [
    | inl e ↦ rw e (ap suc (length-insert_key k a es))
    | inr e ↦ rw e
  ]

  pub length-sort_keys : (es : List (Bytes × A)) → length (sort_keys es) ≡ length es
  unfolding sort_keys
  length-sort_keys [] = refl
  length-sort_keys ((k, a) ∷ es) =
      length-insert_key k a (sort_keys es) ∙ ap suc (length-sort_keys es)

  has_key-insert_key :
      (i k : Bytes) (a : A) (es : List (Bytes × A))
      → has_key i (insert_key k a es) ≡ (bytes_eq k i || has_key i es)
  unfolding insert_key has_key
  has_key-insert_key i k a [] = refl
  has_key-insert_key i k a ((j, b) ∷ es) = elim (Bool-cases (bytes_lt j k)) [
    | inl e ↦ rw e (ground (arith, has_key-insert_key i k a es))
    | inr e ↦ rw e
  ]

  has_key-sort_keys : (i : Bytes) (es : List (Bytes × A)) → has_key i (sort_keys es) ≡ has_key i es
  unfolding sort_keys has_key
  has_key-sort_keys i [] = refl
  has_key-sort_keys i ((k, a) ∷ es) =
      has_key-insert_key i k a (sort_keys es) ∙ ap (λ t. bytes_eq k i || t) (has_key-sort_keys i es)

  Distinct-insert_key :
      (k : Bytes) (a : A) (es : List (Bytes × A))
      → has_key k es ≡ false
      → Distinct es
      → Distinct (insert_key k a es)
  unfolding insert_key has_key
  Distinct-insert_key k a [] h d = (h, tt)
  Distinct-insert_key k a ((j, b) ∷ es) h d = elim (Bool-cases (bytes_lt j k)) [
    | inl e ↦ rw e (
      ground (arith, bytes_eq_comm j k, has_key-insert_key j k a es),
      Distinct-insert_key k a es (ground arith) d.1,
    )
    | inr e ↦ rw e (h, d)
  ]

  pub Distinct-sort_keys : (es : List (Bytes × A)) → Distinct es → Distinct (sort_keys es)
  unfolding sort_keys
  Distinct-sort_keys [] d = d
  Distinct-sort_keys ((k, a) ∷ es) (h, d) =
      Distinct-insert_key k a (sort_keys es) (has_key-sort_keys k es ∙ h) (Distinct-sort_keys es d)
