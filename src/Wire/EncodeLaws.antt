-- ===== src/Wire/EncodeLaws.antt =====
-- The encoder writes the encoding of a value, and succeeds exactly where the limits allow it.
use ferricstore_go.Base.{
  ℕ, ◌+◌, ◌≤◌, ◌<◌, ◌^◌, ◌≡◌, refl, ◌∙◌, ap, Bool, true, false, List, [], ◌∷◌, length, All, ltb,
  arith, Bool-cases, inl, inr,
}
use ferricstore_go.Base.Int.{to_word}
use ferricstore_go.Base.Bytes.{Bytes}
use ferricstore_go.Wire.Value.{
  Value, Items, Fields, null, bool, int, uint, float, bytes, arr, obj, nil, cons, end, field,
  count_items, count_fields, entries,
}
use ferricstore_go.Wire.Keys.{sort_keys, map_values}
use ferricstore_go.Wire.Keys.Laws.{
  sort_keys-map_values, All-sort_keys, All-sort_keys_inv, total, total-sort_keys,
}
use ferricstore_go.Wire.Encode.{
  write_byte, write_int, write_uint, write_float, write_bool, write_entries, write_value,
  write_items, field_writers,
}
use ferricstore_go.Wire.Encoding.{
  join_entries, encoding, encoding_items, encoding_fields, size, size_items, size_fields, Fits,
  FitItems, FitFields,
}
use ferricstore_go.Wire.Writers.{Implements, ▷-Implements, done-Implements, write-Implements}
use ferricstore_go.Wire.Containers.{
  restate, word-Implements, bytes-Implements, key-Implements, plain-Implements, leaf-Implements,
  container-Implements,
}

module _ (limit : ℕ) where
  abbrev IsRight : ℕ → Value → Type 0
  IsRight d v = Implements limit (write_value limit v d) (encoding v) (size v) (Fits d v)

  bool-Implements :
      (b : Bool) → Implements limit (write_bool limit b) (encoding (bool b)) 0 (Unit {0})
  unfolding write_bool encoding write_byte
  bool-Implements true = write-Implements limit _
  bool-Implements false = write-Implements limit _

  uint-Implements : (n : ℕ) → Implements limit (write_uint limit n) (encoding (uint n)) 0 (Unit {0})
  unfolding write_uint write_int encoding
  uint-Implements n = elim (Bool-cases (ltb n (2 ^ 63))) [
    | inl e ↦ rw e (word-Implements limit 3 n)
    | inr e ↦ rw e (word-Implements limit 8 n)
  ]

  abbrev pub FitsEntry : ℕ → Bytes × Value → Type 0
  FitsEntry d e = (length e.0 < 2 ^ 32) × Fits d e.1

  -- The loop over the entries, in whatever order they come.
  loop-Implements :
      (d : ℕ) (l : List (Bytes × Value))
      → All (λ e. IsRight d e.1) l
      → Implements limit
          (write_entries limit (map_values (λ v. write_value limit v d) l))
          (join_entries (map_values encoding l))
          (total (λ e. size e.1) l)
          (All (FitsEntry d) l)
  unfolding write_entries
  loop-Implements d [] h = done-Implements limit
  loop-Implements d ((k, v) ∷ l) (h, hs) =
      restate limit
        (▷-Implements limit (key-Implements limit k)
          (▷-Implements limit h (loop-Implements d l hs)))
        refl (omega arith) (λ p. ((p.0, p.1.0), p.1.1)) (λ p. (p.0.0, (p.0.1, p.1)))

  field_writers-eq :
      (fs : Fields) (d : ℕ)
      → field_writers limit fs d ≡ map_values (λ v. write_value limit v d) (entries fs)
  unfolding write_value
  field_writers-eq end d = refl
  field_writers-eq (field k v fs) d =
      ap (λ t. (k, write_value limit v d) ∷ t) (field_writers-eq fs d)

  pub encoding_fields-eq : (fs : Fields) → encoding_fields fs ≡ map_values encoding (entries fs)
  unfolding encoding
  encoding_fields-eq end = refl
  encoding_fields-eq (field k v fs) = ap (λ t. (k, encoding v) ∷ t) (encoding_fields-eq fs)

pub size-pos : (v : Value) → 1 ≤ size v
size-pos null = omega arith
size-pos (bool b) = omega arith
size-pos (int z) = omega arith
size-pos (uint n) = omega arith
size-pos (float bits) = omega arith
size-pos (bytes b) = omega arith
size-pos (arr vs) = omega arith
size-pos (obj fs) = omega arith

pub count_items-le : (vs : Items) → count_items vs ≤ size_items vs
count_items-le nil = omega arith
count_items-le (cons v vs) = omega (arith, size-pos v, count_items-le vs)

pub count_fields-le : (fs : Fields) → count_fields fs ≤ size_fields fs
count_fields-le end = omega arith
count_fields-le (field k v fs) = omega (arith, size-pos v, count_fields-le fs)

pub size_fields-eq : (fs : Fields) → total (λ e. size e.1) (entries fs) ≡ size_fields fs
size_fields-eq end = refl
size_fields-eq (field k v fs) = omega (arith, size_fields-eq fs)

pub FitFields-All :
    (limit d : ℕ) (fs : Fields) → FitFields d fs → All (FitsEntry limit d) (entries fs)
FitFields-All limit d end h = tt
FitFields-All limit d (field k v fs) h = (h.0, FitFields-All limit d fs h.1)

All-FitFields : (limit d : ℕ) (fs : Fields) → All (FitsEntry limit d) (entries fs) → FitFields d fs
All-FitFields limit d end h = tt
All-FitFields limit d (field k v fs) h = (h.0, All-FitFields limit d fs h.1)

module _ (limit : ℕ) where
  sorted-Implements :
      (fs : Fields) (d : ℕ)
      → All (λ e. IsRight limit d e.1) (entries fs)
      → Implements limit
          (write_entries limit (sort_keys (field_writers limit fs d)))
          (join_entries (sort_keys (encoding_fields fs)))
          (size_fields fs)
          (FitFields d fs)
  sorted-Implements fs d h =
      rw
        (
          field_writers-eq limit fs d,
          encoding_fields-eq limit fs,
          sort_keys-map_values (λ v. write_value limit v d) (entries fs),
          sort_keys-map_values encoding (entries fs),
        )
        (restate limit
          (loop-Implements limit d (sort_keys (entries fs))
            (All-sort_keys (λ e. IsRight limit d e.1) (entries fs) h))
          refl (total-sort_keys (λ e. size e.1) (entries fs) ∙ size_fields-eq fs)
          (λ p. All-FitFields limit d fs (All-sort_keys_inv (FitsEntry limit d) (entries fs) p))
          (λ p. All-sort_keys (FitsEntry limit d) (entries fs) (FitFields-All limit d fs p)))

  mutual
    unfolding write_value encoding write_byte write_int write_float

    value-Implements : (v : Value) (d : ℕ) → IsRight limit d v
    value-Implements null d = plain-Implements limit d (write-Implements limit _)
    value-Implements (bool b) d = plain-Implements limit d (bool-Implements limit b)
    value-Implements (int z) d = plain-Implements limit d (word-Implements limit 3 (to_word z))
    value-Implements (uint n) d = plain-Implements limit d (uint-Implements limit n)
    value-Implements (float bits) d = plain-Implements limit d (word-Implements limit 7 bits)
    value-Implements (bytes b) d = leaf-Implements limit d (bytes-Implements limit b)
    value-Implements (arr vs) d =
        container-Implements limit 5 (count_items vs) d (count_items-le vs)
          (items-Implements vs (d + 1))
    value-Implements (obj fs) d =
        container-Implements limit 6 (count_fields fs) d (count_fields-le fs)
          (sorted-Implements fs (d + 1) (fields-Implements fs (d + 1)))

    pub items-Implements :
        (vs : Items) (d : ℕ)
        → Implements limit
            (write_items limit vs d)
            (encoding_items vs)
            (size_items vs)
            (FitItems d vs)
    items-Implements nil d = done-Implements limit
    items-Implements (cons v vs) d =
        ▷-Implements limit (value-Implements v d) (items-Implements vs d)

    fields-Implements : (fs : Fields) (d : ℕ) → All (λ e. IsRight limit d e.1) (entries fs)
    fields-Implements end d = tt
    fields-Implements (field k v fs) d = (value-Implements v d, fields-Implements fs d)

  -- The headline statement, outside the block.
  pub write_value-Implements : (v : Value) (d : ℕ) → IsRight limit d v
  write_value-Implements v d = value-Implements v d
