-- ===== src/Stream/Id.antt =====
-- Stream identifiers, stores_stream_id.go: two decimal numbers of 64 bits with a dash between them.
use ferricstore_go.Base.{
  ℕ, ◌+◌, ◌-◌, ◌*◌, ◌/◌, ◌^◌, [], ◌∷◌, length, take, drop, Bool, true, false, ◌&&◌, ◌||◌, Option,
  none, some, ltb, leb, ◌==◌, if◌then◌else◌,
}
use ferricstore_go.Base.Bytes.{Bytes}

abbrev pub dash : ℕ
dash = 45

-- `^uint64(0)`
abbrev pub max_uint64 : ℕ
max_uint64 = 2 ^ 64 - 1

abbrev pub is_digit : ℕ → Bool
is_digit d = leb 48 d && leb d 57

-- `parseStreamIDPart`, from the number read so far; `d` less 48 is the digit's value.
unfoldable pub parse_part : ℕ → Bytes → Option ℕ
parse_part number [] = some number
parse_part number (d ∷ ds) =
    let rest = parse_part (number * 10 + (d - 48)) ds in
    if ltb d 48 || ltb 57 d
    then none
    else if ltb ((max_uint64 - (d - 48)) / 10) number
    then none
    else rest

-- The loop that looks for the only dash: the place where it was found, or `none` where a second one is.
unfoldable pub find_separator : ℕ → Option ℕ → Bytes → Option (Option ℕ)
find_separator index found [] = some found
find_separator index none (c ∷ cs) =
    let next = find_separator (index + 1) none cs in
    let here = find_separator (index + 1) (some index) cs in if c == dash then here else next
find_separator index (some at_index) (c ∷ cs) =
    let next = find_separator (index + 1) (some at_index) cs in if c == dash then none else next

abbrev pub both_parts : Option ℕ → Option ℕ → Option (ℕ × ℕ)
both_parts (some ms) (some seq) = some (ms, seq)
both_parts _ _ = none

-- What follows the loop; a separator that is not found, -1 in the source, is `none`.
unfoldable pub parse_at : Bytes → Option ℕ → Option (ℕ × ℕ)
parse_at id none = none
parse_at id (some separator) =
    if separator == 0 || leb (length id) (separator + 1)
    then none
    else both_parts (parse_part 0 (take separator id)) (parse_part 0 (drop (separator + 1) id))

-- `parseStreamIDText`
unfoldable pub parse_stream_id_text : Bytes → Option (ℕ × ℕ)
parse_stream_id_text id = elim (find_separator 0 none id) [
  | none ↦ none
  | some found ↦ parse_at id found
]

-- `validStreamIDOrPartialText`
unfoldable pub valid_id_or_partial : Bytes → Bool
valid_id_or_partial id = elim (parse_stream_id_text id) [
  | some p ↦ true
  | none ↦
      if length id == 0 then false else (elim (parse_part 0 id) [ none ↦ false | some n ↦ true ])
]

-- What `compareStreamIDs` answers: -1, 0 or 1.
pub data Comparison : Type 0 where
  before equal after : Comparison

unfoldable pub compare_stream_ids : ℕ → ℕ → ℕ → ℕ → Comparison
compare_stream_ids left_ms left_seq right_ms right_seq =
    if ltb left_ms right_ms || (left_ms == right_ms && ltb left_seq right_seq)
    then before
    else if left_ms == right_ms && left_seq == right_seq
    then equal
    else after
