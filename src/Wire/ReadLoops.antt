-- ===== src/Wire/ReadLoops.antt =====
-- The loop over the entries of a map, on the sorted entries that the encoder writes.
use ferricstore_go.Base.{
  ℕ, suc, ◌-◌, ◌*◌, ◌≤◌, ◌<◌, ◌^◌, ◌≡◌, refl, ◌∙◌, ap, ap₂, sym, true, false, List, [], ◌∷◌, ◌++◌,
  length, All, length-append, append_assoc, append-nil, ok, arith,
}
use ferricstore_go.Base.Bytes.{Bytes, be, length-be}
use ferricstore_go.Wire.Value.{
  Value, Items, Fields, null, bool, int, uint, float, bytes, arr, obj, nil, cons, end, field,
  count_items, count_fields, entries, has_key, Distinct,
}
use ferricstore_go.Wire.Keys.{sort_keys, map_values}
use ferricstore_go.Wire.Keys.Laws.{
  sort_keys-map_values, All-sort_keys, total, total-sort_keys, length-sort_keys, Distinct-sort_keys,
}
use ferricstore_go.Wire.Encode.{max_container_items}
use ferricstore_go.Wire.Encoding.{
  key_bytes, join_entries, encoding, encoding_items, encoding_fields, size, size_fields, FitFields,
}
use ferricstore_go.Wire.EncodeLaws.{encoding_fields-eq, size_fields-eq}
use ferricstore_go.Wire.Decode.{Read, read_entries}
use ferricstore_go.Wire.Reading.{read_entries_step, All-fresh}
use ferricstore_go.Wire.Normal.{normal, normal_fields, normal_fields-eq}

-- `read` reads the encoding of `v` back and counts its items off.
abbrev pub ReadsBack : (Bytes → ℕ → Read Value) → Value → Type 0
ReadsBack read v =
    (rest : Bytes) (remaining : ℕ)
    → size v ≤ remaining
    → remaining ≤ max_container_items
    → read (encoding v ++ rest) remaining ≡ ok (normal v, rest, remaining - size v)

pub length-encoding-pos : (v : Value) → 1 ≤ length (encoding v)
unfolding encoding
length-encoding-pos null = omega arith
length-encoding-pos (bool true) = omega arith
length-encoding-pos (bool false) = omega arith
length-encoding-pos (int z) = omega arith
length-encoding-pos (uint n) = omega arith
length-encoding-pos (float bits) = omega arith
length-encoding-pos (bytes b) = omega arith
length-encoding-pos (arr vs) = omega arith
length-encoding-pos (obj fs) = omega arith

pub count_items-le_length : (vs : Items) → count_items vs ≤ length (encoding_items vs)
unfolding encoding
count_items-le_length nil = omega arith
count_items-le_length (cons v vs) = omega (
  arith,
  length-append (encoding v) (encoding_items vs),
  length-encoding-pos v,
  count_items-le_length vs,
)

-- An entry takes four bytes for the length of its key and one for its value, at least.
pub length-join_entries :
    (l : List (Bytes × Value)) → length l * 5 ≤ length (join_entries (map_values encoding l))
length-join_entries [] = omega arith
length-join_entries ((k, v) ∷ l) =
    let tail = join_entries (map_values encoding l) in
    omega (
      arith,
      length-append (key_bytes k) (encoding v ++ tail),
      length-append (be 4 (length k)) k,
      length-be 4 (length k),
      length-append (encoding v) tail,
      length-encoding-pos v,
      length-join_entries l,
    )

-- The loop over the entries of a map, with those already taken in.
pub read_entries-join :
    (read : Bytes → ℕ → Read Value) (l mapping : List (Bytes × Value)) (rest : Bytes)
    (remaining : ℕ)
    → All (λ e. ReadsBack read e.1) l
    → All (λ e. length e.0 < 2 ^ 32) l
    → Distinct l
    → All (λ e. has_key e.0 mapping ≡ false) l
    → total (λ e. size e.1) l ≤ remaining
    → remaining ≤ max_container_items
    → read_entries read (length l) mapping (join_entries (map_values encoding l) ++ rest) remaining
      ≡ ok (mapping ++ map_values normal l, rest, remaining - total (λ e. size e.1) l)
read_entries-join read [] mapping rest remaining hs ks d fresh le most =
    unfold read_entries in rw append-nil (ap (λ (r : ℕ). ok (mapping, rest, r)) (omega arith))
read_entries-join read ((k, v) ∷ l) mapping rest remaining (h, hs) (hk, ks) (new, d) (f, fresh) le
      most =
    let tail = join_entries (map_values encoding l) in
    let whole : (key_bytes k ++ (encoding v ++ tail)) ++ rest
        ≡ be 4 (length k) ++ (k ++ (encoding v ++ (tail ++ rest))) =
      simp append_assoc in
    ap (λ t. read_entries read (suc (length l)) mapping t remaining) whole
    ∙ read_entries_step read (length l) mapping k (encoding v ++ (tail ++ rest)) remaining hk f
        (h (tail ++ rest) remaining (omega arith) most)
    ∙ read_entries-join read l (mapping ++ ((k, normal v) ∷ [])) rest (remaining - size v) hs ks d
        (All-fresh k (normal v) mapping l new fresh) (omega arith) (omega arith)
    ∙ ap₂ (λ m (r : ℕ). ok (m, rest, r))
        (append_assoc mapping ((k, normal v) ∷ []) (map_values normal l)) (omega arith)

-- The sorted entries of a map, from the start of the loop.
length-entries : (fs : Fields) → length (entries fs) ≡ count_fields fs
length-entries end = refl
length-entries (field k v fs) = ap suc (length-entries fs)

sorted-eq :
    (fs : Fields) → sort_keys (encoding_fields fs) ≡ map_values encoding (sort_keys (entries fs))
sorted-eq fs = rw (encoding_fields-eq 0 fs) (sort_keys-map_values encoding (entries fs))

pub length-joined :
    (fs : Fields) → count_fields fs * 5 ≤ length (join_entries (sort_keys (encoding_fields fs)))
length-joined fs = rw (sorted-eq fs) (
    omega (
      arith,
      length-join_entries (sort_keys (entries fs)),
      length-sort_keys (entries fs),
      length-entries fs,
    ))

pub FitFields-keys :
    (d : ℕ) (fs : Fields) → FitFields d fs → All (λ e. length e.0 < 2 ^ 32) (entries fs)
FitFields-keys d end h = tt
FitFields-keys d (field k v fs) h = (h.0.0, FitFields-keys d fs h.1)

pub All-none : (l : List (Bytes × Value)) → All (λ e. has_key {A = Value} e.0 [] ≡ false) l
All-none [] = tt
All-none (e ∷ l) = (unfold has_key in refl, All-none l)

pub read_sorted :
    (read : Bytes → ℕ → Read Value) (fs : Fields) (rest : Bytes) (remaining : ℕ)
    → All (λ e. ReadsBack read e.1) (entries fs)
    → All (λ e. length e.0 < 2 ^ 32) (entries fs)
    → Distinct (entries fs)
    → size_fields fs ≤ remaining
    → remaining ≤ max_container_items
    → read_entries read
        (count_fields fs)
        []
        (join_entries (sort_keys (encoding_fields fs)) ++ rest)
        remaining
      ≡ ok (sort_keys (normal_fields fs), rest, remaining - size_fields fs)
read_sorted read fs rest remaining hs ks d le most =
    ap₂ (λ n b. read_entries read n [] (b ++ rest) remaining)
      (sym (length-sort_keys (entries fs) ∙ length-entries fs)) (ap join_entries (sorted-eq fs))
    ∙ read_entries-join read (sort_keys (entries fs)) [] rest remaining
        (All-sort_keys (λ e. ReadsBack read e.1) (entries fs) hs)
        (All-sort_keys (λ e. length e.0 < 2 ^ 32) (entries fs) ks)
        (Distinct-sort_keys (entries fs) d) (All-none (sort_keys (entries fs)))
        (omega (arith, same)) most
    ∙ ap₂ (λ m (r : ℕ). ok (m, rest, r))
        (sym (ap sort_keys (normal_fields-eq fs) ∙ sort_keys-map_values normal (entries fs)))
        (omega (arith, same))
  where
    same : total (λ e. size e.1) (sort_keys (entries fs)) ≡ size_fields fs
    same = total-sort_keys (λ e. size e.1) (entries fs) ∙ size_fields-eq fs
