-- ===== src/Route/Slot.antt =====
-- The slot of a key, topology_routing.go: CRC-32 of the key or of its hash tag.
use ferricstore_go.Base.{
  ℕ, zero, suc, ◌+◌, ◌-◌, ◌/◌, ◌%◌, ◌≡◌, ◌≤◌, refl, ap, sym, ◌∙◌, [], ◌∷◌, ◌++◌, length, take, drop,
  Bool, false, Option, none, some, ◌==◌, if◌then◌else◌, take-append, drop-append, append_assoc,
  length-append, arith,
}
use Prim.Native.Nat.{bit_and, bit_xor}
use ferricstore_go.Base.Bytes.{Bytes, codes, bytes_eq}

abbrev pub route_slot_count : ℕ
route_slot_count = 1024

abbrev pub route_slot_mask : ℕ
route_slot_mask = 1023

-- One entry of the table of the IEEE polynomial, bits reversed: eight steps of the division.
unfoldable pub table_steps : ℕ → ℕ → ℕ
table_steps zero c = c
table_steps (suc n) c = table_steps n (if c % 2 == 1 then bit_xor (c / 2) 0xedb88320 else c / 2)

abbrev pub table_entry : ℕ → ℕ
table_entry i = table_steps 8 i

-- The loop of `routeCRC32` on a `uint32`.
unfoldable pub crc_loop : ℕ → Bytes → ℕ
crc_loop crc [] = crc
crc_loop crc (b ∷ bs) = crc_loop (bit_xor (table_entry (bit_xor (crc % 256) b)) (crc / 256)) bs

unfoldable pub route_crc32 : Bytes → ℕ
route_crc32 value = 0xffffffff - crc_loop 0xffffffff value

-- `strings.IndexByte`
unfoldable pub index_byte : ℕ → Bytes → Option ℕ
index_byte c [] = none
index_byte c (b ∷ bs) =
    let later = index_byte c bs in
    if b == c then some 0 else (elim later [ none ↦ none | some i ↦ some (i + 1) ])

abbrev pub open_brace : ℕ
open_brace = 123

abbrev pub close_brace : ℕ
close_brace = 125

-- The text before the first closing brace, where there is some.
unfoldable pub before_close : Bytes → Option Bytes
before_close rest = elim (index_byte close_brace rest) [
  | none ↦ none
  | some n ↦ if n == 0 then none else some (take n rest)
]

abbrev pub or_else : Option Bytes → Bytes → Bytes
or_else none b = b
or_else (some a) b = a

unfoldable pub hash_tag_or_key : Bytes → Bytes
hash_tag_or_key key = elim (index_byte open_brace key) [
  | none ↦ key
  | some start ↦ or_else (before_close (drop (start + 1) key)) key
]

unfoldable pub flow_hash_tag : Bytes → Bytes → Bytes
flow_hash_tag rest fallback = or_else (before_close rest) (hash_tag_or_key fallback)

-- `strings.HasPrefix`
abbrev pub has_prefix : Bytes → Bytes → Bool
has_prefix text prefix = bytes_eq (take (length prefix) text) prefix

unfoldable pub hash_input : Bytes → Bytes
hash_input text =
    if has_prefix text (codes "f:{")
    then flow_hash_tag (drop 3 text) text
    else if has_prefix text (codes "X:f:{")
    then flow_hash_tag (drop 5 text) text
    else hash_tag_or_key text

unfoldable pub route_slot_for_string : Bytes → ℕ
route_slot_for_string text = bit_and (route_crc32 (hash_input text)) route_slot_mask

-- No byte of the text is the given one.
abbrev pub Lacks : ℕ → Bytes → Type 0
Lacks c [] = Unit {0}
Lacks c (b ∷ bs) = ((b == c) ≡ false) × Lacks c bs

index_byte-first :
    (c : ℕ) (xs ys : Bytes) → Lacks c xs → index_byte c (xs ++ (c ∷ ys)) ≡ some (length xs)
unfolding index_byte
index_byte-first c [] ys h = ground arith
index_byte-first c (x ∷ xs) ys (h, hs) = rw (h, index_byte-first c xs ys hs) (ap some (omega arith))

-- A key with a tag in braces, which is not empty and stands behind the first opening brace, is hashed by the
-- tag alone, whatever stands before and behind it.
pub hash_tag_or_key-tag :
    (before tag behind : Bytes)
    → Lacks open_brace before
    → Lacks close_brace tag
    → 1 ≤ length tag
    → hash_tag_or_key (before ++ (open_brace ∷ (tag ++ (close_brace ∷ behind)))) ≡ tag
unfolding hash_tag_or_key before_close
hash_tag_or_key-tag before tag behind h h' some_tag = rw (
  hash_tag_or_key,
  index_byte-first open_brace before (tag ++ (close_brace ∷ behind)) h,
  rest,
  before_close,
  index_byte-first close_brace tag behind h',
  not_empty,
  rest,
  take-append (length tag) tag (close_brace ∷ behind) refl,
)
  where
    rest :
        drop (length before + 1) (before ++ (open_brace ∷ (tag ++ (close_brace ∷ behind))))
        ≡ tag ++ (close_brace ∷ behind)
    rest =
        ap (drop (length before + 1))
          (sym (append_assoc before (open_brace ∷ []) (tag ++ (close_brace ∷ behind))))
        ∙ drop-append (length before + 1) (before ++ (open_brace ∷ []))
            (tag ++ (close_brace ∷ behind)) (length-append before (open_brace ∷ []))

    not_empty : (length tag == 0) ≡ false
    not_empty = ground arith
