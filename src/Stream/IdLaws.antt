-- ===== src/Stream/IdLaws.antt =====
-- What the parser of stream identifiers accepts and answers, and the order of identifiers.
use ferricstore_go.Base.{
  ℕ, ◌+◌, ◌-◌, ◌*◌, ◌/◌, ◌^◌, ◌≤◌, ◌<◌, ◌≡◌, refl, ap, sym, ◌∙◌, [], ◌∷◌, ◌++◌, length, drop, Bool,
  true, false, ◌&&◌, ◌||◌, none, some, ltb, leb, ◌==◌, if◌then◌else◌, append_assoc, length-append,
  take-append, drop-append, ◌↔◌, Bool-cases, inl, inr, arith,
}
use ferricstore_go.Base.Bytes.{Bytes}
use ferricstore_go.Stream.Id.{
  dash, is_digit, max_uint64, parse_part, find_separator, parse_at, parse_stream_id_text, before,
  equal, after, compare_stream_ids,
}

-- The number that decimal digits stand for, behind those read before, without a bound.
abbrev pub value_of : ℕ → Bytes → ℕ
value_of n [] = n
value_of n (d ∷ ds) = value_of (n * 10 + (d - 48)) ds

abbrev pub all_digits : Bytes → Bool
all_digits [] = true
all_digits (d ∷ ds) = is_digit d && all_digits ds

value_of-le : (n : ℕ) (ds : Bytes) → n ≤ value_of n ds
value_of-le n [] = omega arith
value_of-le n (d ∷ ds) = omega (arith, value_of-le (n * 10 + (d - 48)) ds)

leb-false : (a b : ℕ) → b < a → leb a b ≡ false
leb-false a b h = ground arith

le-leb : (a b : ℕ) → a ≤ b → leb a b ≡ true
le-leb a b h = ground arith

too_large :
    (n d : ℕ)
    → is_digit d ≡ true
    → ltb ((max_uint64 - (d - 48)) / 10) n ≡ true
    → max_uint64 < n * 10 + (d - 48)
too_large n d digit large = ground arith

not_too_large :
    (n d : ℕ)
    → is_digit d ≡ true
    → ltb ((max_uint64 - (d - 48)) / 10) n ≡ false
    → n * 10 + (d - 48) ≤ max_uint64
not_too_large n d digit fits = ground arith

-- The parser of one part answers the value of its digits exactly where all of its bytes are digits and the
-- value fits 64 bits; it never wraps around.
pub parse_part-value :
    (n : ℕ) (ds : Bytes)
    → n ≤ max_uint64
    → parse_part n ds
      ≡ (if all_digits ds && leb (value_of n ds) max_uint64 then some (value_of n ds) else none)
unfolding parse_part
parse_part-value n [] h = ground arith
parse_part-value n (d ∷ ds) h = elim (Bool-cases (is_digit d)) [
  | inr other ↦ ground (arith, other)
  | inl digit ↦
      let next : ℕ = n * 10 + (d - 48) in
      let plain : (ltb d 48 || ltb 57 d) ≡ false = ground (arith, digit) in
      (elim (Bool-cases (ltb ((max_uint64 - (d - 48)) / 10) n)) [
        | inl large ↦
            let over : leb (value_of next ds) max_uint64 ≡ false =
              leb-false _ _ (omega (arith, value_of-le next ds, too_large n d digit large)) in
            rw (plain, large, digit, over) (and_false (all_digits ds))
        | inr fits ↦
            rw (plain, fits, digit) (parse_part-value next ds (not_too_large n d digit fits))
      ])
]
  where
    and_false :
        (b : Bool) → none ≡ (if b && false then some (value_of (n * 10 + (d - 48)) ds) else none)
    and_false true = refl
    and_false false = refl

-- Two identifiers compare as the numbers of 128 bits that they stand for.
pub compare_stream_ids-order :
    (ms seq ms' seq' : ℕ)
    → seq < 2 ^ 64
    → seq' < 2 ^ 64
    → (((compare_stream_ids ms seq ms' seq') ≡ before) ↔ (ms * 2 ^ 64 + seq < ms' * 2 ^ 64 + seq'))
      × (((compare_stream_ids ms seq ms' seq') ≡ equal) ↔ (ms * 2 ^ 64 + seq ≡ ms' * 2 ^ 64 + seq'))
      × (((compare_stream_ids ms seq ms' seq') ≡ after) ↔ (ms' * 2 ^ 64 + seq' < ms * 2 ^ 64 + seq))
unfolding compare_stream_ids
compare_stream_ids-order ms seq ms' seq' h h' = (ground arith, ground arith, ground arith)

-- A dash is no digit.
abbrev pub no_dash : Bytes → Bool
no_dash [] = true
no_dash (c ∷ cs) = elim (c == dash) [ true ↦ false | false ↦ no_dash cs ]

no_dash-cons :
    (x : ℕ) (xs : Bytes) → no_dash (x ∷ xs) ≡ true → ((x == dash) ≡ false) × (no_dash xs ≡ true)
no_dash-cons x xs h = ground arith

digits-no_dash : (ds : Bytes) → all_digits ds ≡ true → no_dash ds ≡ true
digits-no_dash [] h = refl
digits-no_dash (d ∷ ds) h = ground (arith, digits-no_dash ds)

find_separator-behind :
    (i at_index : ℕ) (ds : Bytes)
    → no_dash ds ≡ true
    → find_separator i (some at_index) ds ≡ some (some at_index)
unfolding find_separator
find_separator-behind i at_index [] h = refl
find_separator-behind i at_index (d ∷ ds) h =
    ground (arith, find_separator-behind (i + 1) at_index ds)

find_separator-dash :
    (i : ℕ) (xs ys : Bytes)
    → no_dash xs ≡ true
    → no_dash ys ≡ true
    → find_separator i none (xs ++ (dash ∷ ys)) ≡ some (some (i + length xs))
unfolding find_separator
find_separator-dash i [] ys h h' =
    find_separator-behind (i + 1) i ys h' ∙ ap (λ (k : ℕ). some (some k)) (omega arith)
find_separator-dash i (x ∷ xs) ys h h' =
    let (other, h'') = no_dash-cons x xs h in
    rw other
      (find_separator-dash (i + 1) xs ys h'' h' ∙ ap (λ (k : ℕ). some (some k)) (omega arith))

-- Where both parts are not empty, made of digits and within 64 bits, the identifier with a dash between
-- them parses to their values.
pub parse_stream_id_text-parts :
    (xs ys : Bytes)
    → all_digits xs ≡ true
    → all_digits ys ≡ true
    → 1 ≤ length xs
    → 1 ≤ length ys
    → value_of 0 xs ≤ max_uint64
    → value_of 0 ys ≤ max_uint64
    → parse_stream_id_text (xs ++ (dash ∷ ys)) ≡ some (value_of 0 xs, value_of 0 ys)
unfolding parse_stream_id_text parse_at
parse_stream_id_text-parts xs ys dx dy px py fx fy = rw (
  parse_stream_id_text,
  find_separator-dash 0 xs ys (digits-no_dash xs dx) (digits-no_dash ys dy),
  inside,
  take-append (0 + length xs) xs (dash ∷ ys) (omega arith),
  behind,
  parse_part-value 0 xs (omega arith),
  parse_part-value 0 ys (omega arith),
  dx,
  dy,
  le-leb _ _ fx,
  le-leb _ _ fy,
)
  where
    inside : (0 + length xs == 0 || leb (length (xs ++ (dash ∷ ys))) (0 + length xs + 1)) ≡ false
    inside = ground (arith, length-append xs (dash ∷ ys))

    behind : drop (0 + length xs + 1) (xs ++ (dash ∷ ys)) ≡ ys
    behind =
        ap (drop (0 + length xs + 1)) (sym (append_assoc xs (dash ∷ []) ys))
        ∙ drop-append (0 + length xs + 1) (xs ++ (dash ∷ [])) ys
            (omega (arith, length-append xs (dash ∷ [])))
