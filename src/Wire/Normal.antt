-- ===== src/Wire/Normal.antt =====
-- What a value comes back as: an unsigned integer below 2^63 is written as an `int64`, and the
-- entries of a map arrive in the order of their keys.
use ferricstore_go.Base.{◌^◌, List, [], ◌∷◌, ltb, if◌then◌else◌, ◌≡◌, refl, ap}
use ferricstore_go.Base.Bytes.{Bytes}
use ferricstore_go.Base.Int.{pos}
use ferricstore_go.Wire.Value.{
  Value, Items, Fields, null, bool, int, uint, float, bytes, arr, obj, nil, cons, end, field,
  of_entries, entries,
}
use ferricstore_go.Wire.Keys.{sort_keys, map_values}

unfoldable mutual
  pub normal : Value → Value
  normal null = null
  normal (bool b) = bool b
  normal (int z) = int z
  normal (uint n) = if ltb n (2 ^ 63) then int (pos n) else uint n
  normal (float bits) = float bits
  normal (bytes b) = bytes b
  normal (arr vs) = arr (normal_items vs)
  normal (obj fs) = obj (of_entries (sort_keys (normal_fields fs)))

  pub normal_items : Items → Items
  normal_items nil = nil
  normal_items (cons v vs) = cons (normal v) (normal_items vs)

  pub normal_fields : Fields → List (Bytes × Value)
  normal_fields end = []
  normal_fields (field k v fs) = (k, normal v) ∷ normal_fields fs

pub normal_fields-eq : (fs : Fields) → normal_fields fs ≡ map_values normal (entries fs)
unfolding normal
normal_fields-eq end = refl
normal_fields-eq (field k v fs) = ap (λ t. (k, normal v) ∷ t) (normal_fields-eq fs)
