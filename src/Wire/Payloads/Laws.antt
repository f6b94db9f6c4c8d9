-- ===== src/Wire/Payloads/Laws.antt =====
-- What the payload writers write, and that the decoder reads it back.
use ferricstore_go.Base.{
  ℕ, suc, append-nil, append_assoc, ◌+◌, ◌*◌, ◌≤◌, ◌<◌, ◌^◌, ◌≡◌, refl, ap, List, [], ◌∷◌, ◌++◌,
  length, arith,
}
use ferricstore_go.Base.Bytes.{Bytes, codes, be}
use ferricstore_go.Wire.Value.{Value, Items, bytes, arr, nil, cons, count_items}
use ferricstore_go.Wire.Encode.{
  Writer, ◌▷◌, enter, ensure_container_budget, write_items, write_single_field_map,
  max_encode_depth,
}
use ferricstore_go.Wire.Encoding.{
  key_bytes, encoding, encoding_items, size, size_items, Fits, FitItems,
}
use ferricstore_go.Wire.Writers.{
  Implements, ▷-Implements, done-Implements, enter-Implements, ensure_container_budget-Implements,
}
use ferricstore_go.Wire.Containers.{restate, header-Implements, key-Implements}
use ferricstore_go.Wire.EncodeLaws.{
  write_value-Implements, items-Implements, count_items-le, size-pos,
}
use ferricstore_go.Wire.Payloads.{texts, flat, write_inner, write_pairs, write_command}

-- The array of the pairs.
abbrev pub pair_values : List (Value × Value) → Items
pair_values [] = nil
pair_values ((k, v) ∷ ps) = cons (arr (cons k (cons v nil))) (pair_values ps)

pub pair_values-count : (ps : List (Value × Value)) → count_items (pair_values ps) ≡ length ps
pair_values-count [] = refl
pair_values-count (p ∷ ps) = ap suc (pair_values-count ps)

pub flat-count : (ps : List (Value × Value)) → count_items (flat ps) ≡ 2 * length ps
flat-count [] = refl
flat-count (p ∷ ps) = omega (arith, flat-count ps)

pub texts-count : (ks : List Bytes) → count_items (texts ks) ≡ length ks
texts-count [] = refl
texts-count (k ∷ ks) = ap suc (texts-count ks)

module _ (limit : ℕ) where
  pub inner-Implements :
      {w : Writer} {b : Bytes} {n : ℕ} {P : Type 0} (count d : ℕ)
      → count ≤ n
      → Implements limit w b n P
      → Implements limit
          (write_inner limit count d w)
          (5 ∷ (be 4 count ++ b))
          (1 + n)
          ((d ≤ max_encode_depth) × P)
  inner-Implements {n = n} count d le W =
      restate limit
        (▷-Implements limit (enter-Implements limit d) (
          ensure_container_budget-Implements limit {n = 0 + n} count (omega arith)
            (▷-Implements limit (header-Implements limit 5 count) W)))
        refl (omega arith) (λ p. (p.0, p.1.1)) (λ p. (p.0, (tt, p.1)))

  pub array-Implements :
      (vs : Items) (count d : ℕ)
      → count_items vs ≡ count
      → Implements limit
          (write_inner limit count d (write_items limit vs (d + 1)))
          (encoding (arr vs))
          (size (arr vs))
          ((d ≤ max_encode_depth) × FitItems (d + 1) vs)
  unfolding encoding
  array-Implements vs count d e = rw e (
      inner-Implements count d (omega (arith, count_items-le vs, e))
        (items-Implements limit vs (d + 1)))

  pub pairs-Implements :
      (ps : List (Value × Value)) (d : ℕ)
      → Implements limit
          (write_pairs limit ps d)
          (encoding_items (pair_values ps))
          (size_items (pair_values ps))
          (FitItems d (pair_values ps))
  unfolding write_pairs encoding
  pairs-Implements [] d = done-Implements limit
  pairs-Implements ((k, v) ∷ ps) d =
      restate limit
        (▷-Implements limit
          (inner-Implements 2 d (omega (arith, size-pos k, size-pos v)) (
            ▷-Implements limit (write_value-Implements limit k (d + 1))
              (write_value-Implements limit v (d + 1))))
          (pairs-Implements ps d))
        (rw (append-nil (encoding v)) refl) (omega arith)
        (λ p. ((p.0.0, (omega arith, (p.0.1.0, (p.0.1.1, tt)))), p.1))
        (λ p. ((p.0.0, (p.0.1.1.0, p.0.1.1.1.0)), p.1))

  -- The map with one field in front of its value.
  pub single-Implements :
      {w : Writer} {b : Bytes} {n : ℕ} {P : Type 0} (k : Bytes) (d : ℕ)
      → 1 ≤ n
      → Implements limit w b n P
      → Implements limit
          (enter d ▷ ensure_container_budget 1 ▷ write_single_field_map limit k ▷ w)
          (6 ∷ (be 4 1 ++ (key_bytes k ++ (b ++ []))))
          (1 + n)
          ((d ≤ max_encode_depth) × ((length k < 2 ^ 32) × P))
  unfolding write_single_field_map
  single-Implements {b = b} {n = n} k d le W =
      restate limit
        (▷-Implements limit (enter-Implements limit d) (
          ensure_container_budget-Implements limit {n = 0 + 0 + n} 1 (omega arith) (
            ▷-Implements limit
              (▷-Implements limit (header-Implements limit 6 1) (key-Implements limit k)) W)))
        (rw (append-nil b) (ap (λ t. 6 ∷ t) (append_assoc (be 4 1) (key_bytes k) b))) (omega arith)
        (λ p. (p.0, (p.1.0.1, p.1.1))) (λ p. (p.0, ((tt, p.1.0), p.1.1)))

  -- The map of a command and its arguments.
  pub command-Implements :
      (c : Bytes) (count : ℕ) (vs : Items) (d : ℕ)
      → count_items vs ≡ count
      → Implements limit
          (enter d ▷ write_command limit c count vs d)
          (6
            ∷ (be 4 2
                ++ (key_bytes (codes "command")
                    ++ (encoding (bytes c)
                        ++ (key_bytes (codes "args") ++ (encoding (arr vs) ++ []))))))
          (1 + (1 + size (arr vs)))
          ((d ≤ max_encode_depth)
            × (Fits (d + 1) (bytes c) × ((d + 1 ≤ max_encode_depth) × FitItems (d + 1 + 1) vs)))
  unfolding write_command
  command-Implements c count vs d e =
      restate limit
        (▷-Implements limit (enter-Implements limit d) (
          ensure_container_budget-Implements limit {n = 0 + (0 + (1 + (0 + size (arr vs))))} 2
            (omega arith)
            (▷-Implements limit (header-Implements limit 6 2) (
              ▷-Implements limit (key-Implements limit (codes "command")) (
                ▷-Implements limit (write_value-Implements limit (bytes c) (d + 1)) (
                  ▷-Implements limit (key-Implements limit (codes "args"))
                    (array-Implements vs count (d + 1) e)))))))
        (rw (append-nil (encoding (arr vs))) refl) (omega arith)
        (λ p. (p.0, (p.1.1.1.0, p.1.1.1.1.1)))
        (λ p. (p.0, (tt, (omega arith, (p.1.0, (omega arith, p.1.1))))))
