-- ===== src/Wire/RoundTrip.antt =====
-- The decoder reads back what the encoder wrote, whatever follows it.
use ferricstore_go.Base.{
  ℕ, zero, suc, ◌+◌, ◌-◌, ◌≤◌, ◌<◌, ◌^◌, ◌≡◌, ◌∙◌, ap, sym, true, false, [], ◌++◌, length, All,
  length-append, append_assoc, ok, err, >>=-eq_ok, ltb, ◌==◌, arith, Bool-cases, inl, inr,
}
use ferricstore_go.Base.Int.{to_word, of_word-to_word, to_word-lt}
use ferricstore_go.Base.Bytes.{Bytes, be}
use ferricstore_go.Wire.Value.{
  Value, Items, Fields, null, bool, int, uint, float, bytes, arr, obj, nil, cons, end, field,
  count_items, count_fields, entries, of_entries, IsGoValue, AreGoItems, AreGoFields,
}
use ferricstore_go.Wire.Keys.{sort_keys}
use ferricstore_go.Wire.Encode.{max_container_items}
use ferricstore_go.Wire.Encoding.{
  join_entries, encoding, encoding_items, encoding_fields, size, size_items, Fits, FitItems,
  FitFields,
}
use ferricstore_go.Wire.Encode.{Encoder, limit_not_positive, write_value, encode_value_with_limit}
use ferricstore_go.Wire.EncodeLaws.{write_value-Implements}
use ferricstore_go.Wire.Decode.{decode_value, decode_value_with_limits}
use ferricstore_go.Wire.EncodeLaws.{count_items-le, count_fields-le}
use ferricstore_go.Wire.Decode.{read_items, read_tagged, read_value}
use ferricstore_go.Wire.Reading.{read_uint-be, read_bytes-append, read_count-be, read_value_step}
use ferricstore_go.Wire.Normal.{normal, normal_items, normal_fields}
use ferricstore_go.Wire.ReadLoops.{
  ReadsBack, count_items-le_length, length-joined, FitFields-keys, read_sorted,
}

Fits-depth : (d : ℕ) (v : Value) → Fits d v → d ≤ 64
Fits-depth d null h = h
Fits-depth d (bool b) h = h
Fits-depth d (int z) h = h
Fits-depth d (uint n) h = h
Fits-depth d (float bits) h = h
Fits-depth d (bytes b) h = h.0
Fits-depth d (arr vs) h = h.0
Fits-depth d (obj fs) h = h.0

mutual
  unfolding encoding normal read_tagged read_items

  pub value-ReadsBack :
      (v : Value) (d levels : ℕ)
      → d + levels ≡ 65
      → Fits d v
      → IsGoValue v
      → ReadsBack (read_value levels) v
  value-ReadsBack v d zero e fits go rest remaining le most =
      absurd (omega (arith, Fits-depth d v fits))
  value-ReadsBack null d (suc levels) e fits go rest remaining le most =
      read_value_step levels 0 rest remaining le
  value-ReadsBack (bool true) d (suc levels) e fits go rest remaining le most =
      read_value_step levels 1 rest remaining le
  value-ReadsBack (bool false) d (suc levels) e fits go rest remaining le most =
      read_value_step levels 2 rest remaining le
  value-ReadsBack (int z) d (suc levels) e fits go rest remaining le most =
      read_value_step levels 3 (be 8 (to_word z) ++ rest) remaining le
      ∙ rw (read_uint-be 8 (to_word z) rest (to_word-lt z go), of_word-to_word z go)
  value-ReadsBack (uint n) d (suc levels) e fits go rest remaining le most =
      elim (Bool-cases (ltb n (2 ^ 63))) [
        | inl lt ↦ rw lt (
            read_value_step levels 3 (be 8 n ++ rest) remaining le
            ∙ rw (read_uint-be 8 n rest go, lt))
        | inr ge ↦
            rw ge (
              read_value_step levels 8 (be 8 n ++ rest) remaining le
              ∙ rw (read_uint-be 8 n rest go))
      ]
  value-ReadsBack (float bits) d (suc levels) e fits go rest remaining le most =
      read_value_step levels 7 (be 8 bits ++ rest) remaining le ∙ rw (read_uint-be 8 bits rest go)
  value-ReadsBack (bytes b) d (suc levels) e fits go rest remaining le most =
      rw (append_assoc (be 4 (length b)) b rest) (
        read_value_step levels 4 (be 4 (length b) ++ (b ++ rest)) remaining le
        ∙ rw (read_uint-be 4 (length b) (b ++ rest) fits.1, read_bytes-append b rest))
  value-ReadsBack (arr vs) d (suc levels) e fits go rest remaining le most =
      rw (append_assoc (be 4 (count_items vs)) (encoding_items vs) rest) (
        read_value_step levels 5 (be 4 (count_items vs) ++ (encoding_items vs ++ rest)) remaining
          (omega arith)
        ∙ rw
            (
              read_count-be 1 (count_items vs) (encoding_items vs ++ rest) (remaining - 1)
                  (omega (arith, count_items-le vs)) (omega arith)
                  (omega (arith, count_items-le_length vs, length-append (encoding_items vs) rest)),
              items-ReadsBack vs (d + 1) levels (omega arith) fits.1.1 go rest (remaining - 1)
                  (omega arith) (omega arith),
            )
            (ap (λ (r : ℕ). ok (arr (normal_items vs), rest, r)) (omega arith)))
  value-ReadsBack (obj fs) d (suc levels) e fits go rest remaining le most =
      rw (append_assoc (be 4 (count_fields fs)) joined rest) (
        read_value_step levels 6 (be 4 (count_fields fs) ++ (joined ++ rest)) remaining
          (omega arith)
        ∙ rw
            (
              read_count-be 5 (count_fields fs) (joined ++ rest) (remaining - 1)
                  (omega (arith, count_fields-le fs)) (omega arith)
                  (omega (arith, length-joined fs, length-append joined rest)),
              read_sorted (read_value levels) fs rest (remaining - 1)
                  (fields-ReadBack fs (d + 1) levels (omega arith) fits.1.1 go.1)
                  (FitFields-keys (d + 1) fs fits.1.1) go.0 (omega arith) (omega arith),
            )
            (ap (λ (r : ℕ). ok (obj (of_entries (sort_keys (normal_fields fs))), rest, r))
              (omega arith)))
    where
      joined : Bytes
      joined = join_entries (sort_keys (encoding_fields fs))

  items-ReadsBack :
      (vs : Items) (d levels : ℕ)
      → d + levels ≡ 65
      → FitItems d vs
      → AreGoItems vs
      → (rest : Bytes) (remaining : ℕ) → size_items vs ≤ remaining
      → remaining ≤ max_container_items
      → read_items (read_value levels) (count_items vs) (encoding_items vs ++ rest) remaining
        ≡ ok (normal_items vs, rest, remaining - size_items vs)
  items-ReadsBack nil d levels e fits go rest remaining le most =
      ap (λ (r : ℕ). ok (nil, rest, r)) (omega arith)
  items-ReadsBack (cons v vs) d levels e fits go rest remaining le most =
      rw (append_assoc (encoding v) (encoding_items vs) rest) (
        rw
          (
            value-ReadsBack v d levels e fits.0 go.0 (encoding_items vs ++ rest) remaining
                (omega arith) most,
            items-ReadsBack vs d levels e fits.1 go.1 rest (remaining - size v) (omega arith)
                (omega arith),
          )
          (ap (λ (r : ℕ). ok (cons (normal v) (normal_items vs), rest, r)) (omega arith)))

  fields-ReadBack :
      (fs : Fields) (d levels : ℕ)
      → d + levels ≡ 65
      → FitFields d fs
      → AreGoFields fs
      → All (λ e. ReadsBack (read_value levels) e.1) (entries fs)
  fields-ReadBack end d levels e fits go = tt
  fields-ReadBack (field k v fs) d levels e fits go =
      (value-ReadsBack v d levels e fits.0.1 go.0, fields-ReadBack fs d levels e fits.1 go.1)

-- Where the value fits the limits, the decoder takes the value's encoding from the front of its
-- input and leaves the rest.
pub decode_value-encoding :
    (v : Value) (rest : Bytes)
    → IsGoValue v
    → Fits 0 v
    → size v ≤ max_container_items
    → decode_value (encoding v ++ rest) ≡ ok (normal v, rest)
unfolding decode_value decode_value_with_limits
decode_value-encoding v rest go fits le =
    rw (value-ReadsBack v 0 65 (omega arith) fits go rest max_container_items le (omega arith))

abbrev start : Encoder
start = record { out = []; remaining = max_container_items }

-- What `encode_value_with_limit` returns is the encoding, within the limit; and the
-- value is within the limits of items, of depth and of lengths.
pub encode_value_with_limit-ok :
    (v : Value) (limit : ℕ) (b : Bytes)
    → encode_value_with_limit v limit ≡ ok b
    → (b ≡ encoding v) × (length b ≤ limit) × (size v ≤ max_container_items) × Fits 0 v
unfolding encode_value_with_limit
encode_value_with_limit-ok v limit b e = elim (Bool-cases (limit == 0)) [
  | inl z ↦ absurd (unequal (rw z at e))
  | inr nz ↦
      let (s, w, last) = >>=-eq_ok (write_value limit v 0 start) (λ s. ok s.out) (rw nz at e) in
      let (o, r, l, p) = (write_value-Implements limit v 0).sound start s w in
      let out : s.out ≡ b = ground arith in
      (sym out ∙ o, rw (← out) (l (omega arith)), omega arith, p)
]
  where
    unequal : err limit_not_positive ≡ ok b → ⊥
    unequal h = cc

-- Every value within the limits of depth, of lengths and of items whose encoding fits a positive limit is
-- encoded, and the result is its encoding.
pub encode_value_with_limit-total :
    (v : Value) (limit : ℕ)
    → 0 < limit
    → length (encoding v) ≤ limit
    → size v ≤ max_container_items
    → Fits 0 v
    → encode_value_with_limit v limit ≡ ok (encoding v)
unfolding encode_value_with_limit
encode_value_with_limit-total v limit pos le items fits =
    rw (positive, (write_value-Implements limit v 0).complete start fits items (omega (arith, le)))
  where
    positive : (limit == 0) ≡ false
    positive = ground arith

-- What the encoder returns for a value that Go's types can hold, under any limit, decodes from the front of
-- any input to the value in normal form, and the decoder leaves exactly the bytes behind it.
pub decode-encode :
    (v : Value) (limit : ℕ) (b rest : Bytes)
    → IsGoValue v
    → encode_value_with_limit v limit ≡ ok b
    → decode_value (b ++ rest) ≡ ok (normal v, rest)
decode-encode v limit b rest go e =
    let (same, _, items, fits) = encode_value_with_limit-ok v limit b e in
    rw same (decode_value-encoding v rest go fits items)
