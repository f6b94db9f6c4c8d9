-- ===== src/Buffered/Capacity.antt =====
-- The memory that a command's snapshot would retain, buffered_capacity.go. A value is what reflection shows of
-- it, as a finite tree: a struct holds its exported fields, `size` is that of the type.
use ferricstore_go.Base.{
  ℕ, ◌+◌, ◌-◌, ◌*◌, ◌/◌, Bool, true, ◌&&◌, ◌||◌, Option, none, some, ltb, leb, ◌==◌, if◌then◌else◌,
}
use ferricstore_go.Wire.Encode.{max_encode_depth}

mutual
  pub data Shape : Type 0 where
    invalid nil_interface nil_pointer nil_slice nil_map : Shape
    interface pointer : Shape → Shape
    text byte_slice plain : ℕ → Shape
    slice : Shapes → Shape
    array struct : (size : ℕ) (elements : Shapes) → Shape
    map_of : (entries : ℕ) (keys_and_values : Shapes) → Shape

  pub data Shapes : Type 0 where
    stop : Shapes
    also : Shape → Shapes → Shapes

abbrev pub max_int : ℕ
max_int = 0x7fffffffffffffff

-- `consume`: what remains, where it suffices.
abbrev pub consume : ℕ → ℕ → Option ℕ
consume size b = if leb size b then some (b - size) else none

abbrev pub after_consume : Option ℕ → (ℕ → Option ℕ) → Option ℕ
after_consume none f = none
after_consume (some b) f = f b

unfoldable mutual
  pub consume_value : Shape → ℕ → ℕ → Option ℕ
  consume_value invalid depth b = consume 1 b
  consume_value nil_interface depth b = if ltb max_encode_depth depth then none else consume 16 b
  consume_value (interface v) depth b =
      if ltb max_encode_depth depth
      then none
      else after_consume (consume 16 b) (consume_value v (depth + 1))
  consume_value nil_pointer depth b = if ltb max_encode_depth depth then none else consume 8 b
  consume_value (pointer v) depth b =
      if ltb max_encode_depth depth
      then none
      else after_consume (consume 8 b) (consume_value v (depth + 1))
  consume_value (text n) depth b =
      if ltb max_encode_depth depth then none else after_consume (consume 16 b) (consume n)
  consume_value nil_slice depth b = if ltb max_encode_depth depth then none else consume 24 b
  consume_value (byte_slice n) depth b =
      if ltb max_encode_depth depth then none else after_consume (consume 24 b) (consume n)
  consume_value (slice vs) depth b =
      if ltb max_encode_depth depth
      then none
      else after_consume (consume 24 b) (consume_values vs (depth + 1))
  consume_value (array size vs) depth b =
      if ltb max_encode_depth depth
      then none
      else after_consume (consume size b) (consume_values vs (depth + 1))
  consume_value nil_map depth b = if ltb max_encode_depth depth then none else consume 8 b
  consume_value (map_of entries vs) depth b =
      if ltb max_encode_depth depth
      then none
      else after_consume (consume 8 b) (λ b'.
        if ltb (max_int / 64) entries
        then none
        else after_consume (consume (64 * entries) b') (consume_values vs (depth + 1)))
  consume_value (struct size vs) depth b =
      if ltb max_encode_depth depth
      then none
      else after_consume (consume size b) (consume_values vs (depth + 1))
  consume_value (plain size) depth b = if ltb max_encode_depth depth then none else consume size b

  pub consume_values : Shapes → ℕ → ℕ → Option ℕ
  consume_values stop depth b = some b
  consume_values (also v vs) depth b =
      after_consume (consume_value v depth b) (consume_values vs depth)

abbrev pub count_shapes : Shapes → ℕ
count_shapes stop = 0
count_shapes (also v vs) = count_shapes vs + 1

abbrev pub spent_of : ℕ → Option ℕ → Option ℕ
spent_of limit none = none
spent_of limit (some b) = some (limit - b)

-- `bufferedCommandRetainedSize`; a limit that is not positive is 0.
unfoldable pub retained_size : Shapes → ℕ → Option ℕ
retained_size args limit =
    if limit == 0 || ltb ((max_int - 24) / 16) (count_shapes args)
    then none
    else spent_of limit
        (after_consume (consume (24 + 16 * count_shapes args) limit) (consume_values args 0))

-- The size without a budget, and whether no value is too deep and no map too large.
abbrev mutual
  pub cost : Shape → ℕ
  cost invalid = 1
  cost nil_interface = 16
  cost (interface v) = 16 + cost v
  cost nil_pointer = 8
  cost (pointer v) = 8 + cost v
  cost (text n) = 16 + n
  cost nil_slice = 24
  cost (byte_slice n) = 24 + n
  cost (slice vs) = 24 + costs vs
  cost (array size vs) = size + costs vs
  cost nil_map = 8
  cost (map_of entries vs) = 8 + (64 * entries + costs vs)
  cost (struct size vs) = size + costs vs
  cost (plain size) = size

  pub costs : Shapes → ℕ
  costs stop = 0
  costs (also v vs) = cost v + costs vs

abbrev pub shallow : ℕ → Bool
shallow depth = leb depth max_encode_depth

abbrev mutual
  pub fits : Shape → ℕ → Bool
  fits invalid depth = true
  fits (interface v) depth = shallow depth && fits v (depth + 1)
  fits (pointer v) depth = shallow depth && fits v (depth + 1)
  fits (slice vs) depth = shallow depth && all_fit vs (depth + 1)
  fits (array size vs) depth = shallow depth && all_fit vs (depth + 1)
  fits (struct size vs) depth = shallow depth && all_fit vs (depth + 1)
  fits (map_of entries vs) depth =
      shallow depth && (leb entries (max_int / 64) && all_fit vs (depth + 1))
  fits _ depth = shallow depth

  pub all_fit : Shapes → ℕ → Bool
  all_fit stop depth = true
  all_fit (also v vs) depth = fits v depth && all_fit vs depth

abbrev pub affordable : Bool → ℕ → ℕ → Option ℕ
affordable ok_shape size b = if ok_shape && leb size b then some (b - size) else none
