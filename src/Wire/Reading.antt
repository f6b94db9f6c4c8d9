-- ===== src/Wire/Reading.antt =====
-- One step of the decoder on bytes that the encoder writes.
use ferricstore_go.Base.{
  ℕ, suc, ◌-◌, ◌*◌, ◌≤◌, ◌<◌, ◌^◌, ◌≡◌, refl, false, ◌||◌, List, [], ◌∷◌, ◌++◌, length, All,
  length-append, take-append, drop-append, ok, ltb-false, arith,
}
use ferricstore_go.Base.Bytes.{Bytes, be, length-be, read_be-be, bytes_eq, bytes_eq_comm}
use ferricstore_go.Wire.Value.{Value, has_key}
use ferricstore_go.Wire.Encode.{max_container_items}
use ferricstore_go.Wire.Decode.{
  Read, read_uint, read_bytes, bounded_item_count, read_count, read_entries, read_tagged,
  read_value,
}

pub read_uint-be :
    (k n : ℕ) (rest : Bytes) → n < 256 ^ k → read_uint k (be k n ++ rest) ≡ ok (n, rest)
unfolding read_uint
read_uint-be k n rest h = rw (
  ltb-false (length (be k n ++ rest)) k (omega (arith, length-append (be k n) rest, length-be k n)),
  take-append k (be k n) rest (length-be k n),
  drop-append k (be k n) rest (length-be k n),
  read_be-be k n h,
)

pub read_bytes-append : (b rest : Bytes) → read_bytes (length b) (b ++ rest) ≡ ok (b, rest)
unfolding read_bytes
read_bytes-append b rest = rw (
  ltb-false (length (b ++ rest)) (length b) (omega (arith, length-append b rest)),
  take-append (length b) b rest refl,
  drop-append (length b) b rest refl,
)

pub read_count-be :
    (min_bytes count : ℕ) (rest : Bytes) (remaining : ℕ)
    → count ≤ remaining
    → remaining ≤ max_container_items
    → count * min_bytes ≤ length rest
    → read_count min_bytes (be 4 count ++ rest) remaining ≡ ok (count, rest)
unfolding read_count bounded_item_count
read_count-be min_bytes count rest remaining fits cap room = rw (
  read_uint-be 4 count rest (omega arith),
  ltb-false max_container_items count (omega arith),
  ltb-false (length rest) (count * min_bytes) room,
  ltb-false remaining count fits,
)

-- An item is counted off, and the tag decides.
pub read_value_step :
    (levels tag : ℕ) (rest : Bytes) (remaining : ℕ)
    → 1 ≤ remaining
    → read_value (suc levels) (tag ∷ rest) remaining
      ≡ read_tagged (read_value levels) tag rest (remaining - 1)
unfolding read_value
read_value_step levels tag rest remaining h = ground arith

pub read_entries_step :
    (read : Bytes → ℕ → Read Value) (n : ℕ) (mapping : List (Bytes × Value)) (k tail : Bytes)
    (remaining : ℕ) {v : Value} {rest : Bytes} {remaining' : ℕ}
    → length k < 2 ^ 32
    → has_key k mapping ≡ false
    → read tail remaining ≡ ok (v, rest, remaining')
    → read_entries read (suc n) mapping (be 4 (length k) ++ (k ++ tail)) remaining
      ≡ read_entries read n (mapping ++ ((k, v) ∷ [])) rest remaining'
unfolding read_entries
read_entries_step read n mapping k tail remaining hk fresh e =
    rw (read_uint-be 4 (length k) (k ++ tail) (omega arith), read_bytes-append k tail, fresh, e)

has_key-snoc :
    (i k : Bytes) (v : Value) (m : List (Bytes × Value))
    → has_key i (m ++ ((k, v) ∷ [])) ≡ (has_key i m || bytes_eq k i)
unfolding has_key
has_key-snoc i k v [] = ground arith
has_key-snoc i k v ((j, w) ∷ m) = ground (arith, has_key-snoc i k v m)

-- The keys still to come stay new when another of them is taken in.
pub All-fresh :
    (k : Bytes) (v : Value) (m l : List (Bytes × Value))
    → has_key k l ≡ false
    → All (λ e. has_key e.0 m ≡ false) l
    → All (λ e. has_key e.0 (m ++ ((k, v) ∷ [])) ≡ false) l
unfolding has_key
All-fresh k v m [] h fresh = tt
All-fresh k v m ((j, w) ∷ l) h (f, fs) =
    (ground (arith, has_key-snoc j k v m, bytes_eq_comm j k), All-fresh k v m l (ground arith) fs)
