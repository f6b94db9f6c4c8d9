-- ===== src/Buffered/Sizes.antt =====
-- The size that the budget loop finds is the sum of the sizes of the parts.
use ferricstore_go.Base.{
  ℕ, ◌+◌, ◌-◌, ◌*◌, ◌/◌, ◌≡◌, refl, Bool, true, false, ◌&&◌, ◌||◌, not, Option, none, some, ltb,
  leb, ◌==◌, if◌then◌else◌, Bool-cases, inl, inr, arith,
}
use ferricstore_go.Wire.Encode.{max_encode_depth}
use ferricstore_go.Buffered.Capacity.{
  Shape, invalid, nil_interface, nil_pointer, nil_slice, nil_map, interface, pointer, text,
  byte_slice, plain, slice, array, struct, map_of, Shapes, stop, also, max_int, consume,
  after_consume, consume_value, consume_values, count_shapes, spent_of, retained_size, cost, costs,
  shallow, fits, all_fit, affordable,
}

-- One part behind another is as affordable as both together.
two_parts :
    (fit : Bool) (first second b : ℕ) (f : ℕ → Option ℕ)
    → ((b' : ℕ) → f b' ≡ affordable fit second b')
    → after_consume (consume first b) f ≡ affordable fit (first + second) b
two_parts fit first second b f h = elim (Bool-cases (leb first b)) [
  | inl enough ↦ rw (enough, h (b - first)) (ground (arith, enough))
  | inr short ↦ rw short (ground (arith, short))
]

-- The same behind the test of the depth.
nested :
    (depth : ℕ) (fit : Bool) (size b : ℕ) (o : Option ℕ)
    → o ≡ affordable fit size b
    → (if ltb max_encode_depth depth then none else o) ≡ affordable (shallow depth && fit) size b
nested depth fit size b o h = rw h (ground arith)

alone :
    (depth size b : ℕ)
    → (if ltb max_encode_depth depth then none else consume size b)
      ≡ affordable (shallow depth) size b
alone depth size b = ground arith

bounded :
    (entries : ℕ) (fit : Bool) (size b : ℕ) (o : Option ℕ)
    → o ≡ affordable fit size b
    → (if ltb (max_int / 64) entries then none else o)
      ≡ affordable (leb entries (max_int / 64) && fit) size b
bounded entries fit size b o h = rw h (ground arith)

in_turn :
    (fit fit' : Bool) (first second b : ℕ) (f : ℕ → Option ℕ)
    → ((b' : ℕ) → f b' ≡ affordable fit' second b')
    → after_consume (affordable fit first b) f ≡ affordable (fit && fit') (first + second) b
in_turn fit fit' first second b f h = elim (Bool-cases (fit && leb first b)) [
  | inl enough ↦ rw (enough, h (b - first)) (ground (arith, enough))
  | inr short ↦ rw short (ground (arith, short))
]

mutual
  unfolding consume_value consume_values

  consume_value-affordable :
      (v : Shape) (depth b : ℕ) → consume_value v depth b ≡ affordable (fits v depth) (cost v) b
  consume_value-affordable invalid depth b = ground arith
  consume_value-affordable nil_interface depth b = alone depth 16 b
  consume_value-affordable nil_pointer depth b = alone depth 8 b
  consume_value-affordable nil_slice depth b = alone depth 24 b
  consume_value-affordable nil_map depth b = alone depth 8 b
  consume_value-affordable (plain size) depth b = alone depth size b
  consume_value-affordable (interface v) depth b =
      nested depth (fits v (depth + 1)) (16 + cost v) b _ (
        two_parts (fits v (depth + 1)) 16 (cost v) b (consume_value v (depth + 1))
          (consume_value-affordable v (depth + 1)))
  consume_value-affordable (pointer v) depth b =
      nested depth (fits v (depth + 1)) (8 + cost v) b _ (
        two_parts (fits v (depth + 1)) 8 (cost v) b (consume_value v (depth + 1))
          (consume_value-affordable v (depth + 1)))
  consume_value-affordable (text n) depth b = ground arith
  consume_value-affordable (byte_slice n) depth b = ground arith
  consume_value-affordable (slice vs) depth b =
      nested depth (all_fit vs (depth + 1)) (24 + costs vs) b _ (
        two_parts (all_fit vs (depth + 1)) 24 (costs vs) b (consume_values vs (depth + 1))
          (consume_values-affordable vs (depth + 1)))
  consume_value-affordable (array size vs) depth b =
      nested depth (all_fit vs (depth + 1)) (size + costs vs) b _ (
        two_parts (all_fit vs (depth + 1)) size (costs vs) b (consume_values vs (depth + 1))
          (consume_values-affordable vs (depth + 1)))
  consume_value-affordable (struct size vs) depth b =
      nested depth (all_fit vs (depth + 1)) (size + costs vs) b _ (
        two_parts (all_fit vs (depth + 1)) size (costs vs) b (consume_values vs (depth + 1))
          (consume_values-affordable vs (depth + 1)))
  consume_value-affordable (map_of entries vs) depth b =
      nested depth (leb entries (max_int / 64) && all_fit vs (depth + 1))
        (8 + (64 * entries + costs vs)) b _
        (two_parts (leb entries (max_int / 64) && all_fit vs (depth + 1)) 8
          (64 * entries + costs vs) b _
          (λ b'. bounded entries (all_fit vs (depth + 1)) (64 * entries + costs vs) b' _ (
            two_parts (all_fit vs (depth + 1)) (64 * entries) (costs vs) b'
              (consume_values vs (depth + 1)) (consume_values-affordable vs (depth + 1)))))

  consume_values-affordable :
      (vs : Shapes) (depth b : ℕ)
      → consume_values vs depth b ≡ affordable (all_fit vs depth) (costs vs) b
  consume_values-affordable stop depth b = ground arith
  consume_values-affordable (also v vs) depth b = rw (consume_value-affordable v depth b) (
      in_turn (fits v depth) (all_fit vs depth) (cost v) (costs vs) b (consume_values vs depth)
        (consume_values-affordable vs depth))

-- What a snapshot of the arguments costs, and whether it may be taken with a given limit.
abbrev pub snapshot_cost : Shapes → ℕ
snapshot_cost args = 24 + 16 * count_shapes args + costs args

abbrev pub may_retain : Shapes → ℕ → Bool
may_retain args limit =
    not (limit == 0)
    && (leb (count_shapes args) ((max_int - 24) / 16)
        && (all_fit args 0 && leb (snapshot_cost args) limit))

spent-affordable :
    (fit : Bool) (size limit : ℕ)
    → spent_of limit (affordable fit size limit)
      ≡ (if fit && leb size limit then some size else none)
spent-affordable fit size limit = elim (Bool-cases (fit && leb size limit)) [
  | inl enough ↦ rw enough (ground (arith, enough))
  | inr short ↦ rw short refl
]

guarded :
    (zero : Bool) (most count : ℕ) (fit : Bool) (o : Option ℕ)
    → (if zero || ltb most count then none else (if fit then o else none))
      ≡ (if not zero && (leb count most && fit) then o else none)
guarded true most count fit o = refl
guarded false most count fit o = elim (Bool-cases (leb count most)) [
  | inl few ↦ ground (arith, few)
  | inr many ↦ ground (arith, many)
]

-- The size of a command's arguments is found exactly when the limit is not 0, the arguments are not too many,
-- none nests too deep, no map has too many entries, and the sum of the costs of the slice, of its elements and
-- of everything that they hold is within the limit; the size found is that sum.
pub retained_size-snapshot_cost :
    (args : Shapes) (limit : ℕ)
    → retained_size args limit ≡ (if may_retain args limit then some (snapshot_cost args) else none)
unfolding retained_size
retained_size-snapshot_cost args limit =
    rw
      (
        two_parts (all_fit args 0) (24 + 16 * count_shapes args) (costs args) limit
            (consume_values args 0) (consume_values-affordable args 0),
        spent-affordable (all_fit args 0) (snapshot_cost args) limit,
      )
      (guarded (limit == 0) ((max_int - 24) / 16) (count_shapes args)
        (all_fit args 0 && leb (snapshot_cost args) limit) (some (snapshot_cost args)))
