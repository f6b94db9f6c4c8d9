-- ===== src/Wire/Examples.antt =====
-- The codec of values on a concrete map whose keys are out of order.
use ferricstore_go.Base.{◌≡◌, ◌≤◌, refl, [], ◌∷◌, ◌++◌, length, ok, arith}
use ferricstore_go.Base.Int.{pos}
use ferricstore_go.Base.Bytes.{Bytes, codes, be, bytes_eq, bytes_lt}
use ferricstore_go.Wire.Keys.{sort_keys, insert_key}
use ferricstore_go.Wire.Value.{Value, IsGoValue, obj, int, bytes, field, end, has_key}
use ferricstore_go.Wire.Encode.{encode_value_with_limit, max_container_items}
use ferricstore_go.Wire.Encoding.{encoding, size, Fits}
use ferricstore_go.Wire.Decode.{decode_value}
use ferricstore_go.Wire.Normal.{normal}
use ferricstore_go.Wire.RoundTrip.{
  decode-encode, decode_value-encoding, encode_value_with_limit-ok, encode_value_with_limit-total,
}
use ferricstore_go.Wire.Value.{cons, nil}
use ferricstore_go.Wire.Payloads.{Payload, key_values}

abbrev two_fields : Value
two_fields = obj (field (codes "b") (int (pos 3)) (field (codes "a") (bytes (codes "xy")) end))

abbrev two_fields_bytes : Bytes
two_fields_bytes =
    6 ∷ 0 ∷ 0 ∷ 0 ∷ 2 ∷ 0 ∷ 0 ∷ 0 ∷ 1 ∷ 97 ∷ 4 ∷ 0 ∷ 0 ∷ 0 ∷ 2 ∷ 120 ∷ 121 ∷ 0 ∷ 0 ∷ 0 ∷ 1 ∷ 98 ∷ 3
    ∷ 0 ∷ 0 ∷ 0 ∷ 0 ∷ 0 ∷ 0 ∷ 0 ∷ 3 ∷ []

two_fields-encoding : encoding two_fields ≡ two_fields_bytes
unfolding encoding be sort_keys insert_key bytes_lt
two_fields-encoding = refl

two_fields-IsGoValue : IsGoValue two_fields
unfolding has_key bytes_eq
two_fields-IsGoValue = ((refl, (refl, tt)), (omega arith, (tt, tt)))

two_fields-Fits : Fits 0 two_fields
two_fields-Fits = (
  omega arith,
  (omega arith, ((omega arith, omega arith), ((omega arith, (omega arith, omega arith)), tt))),
)

short : length (encoding two_fields) ≤ 100
short = rw two_fields-encoding (omega arith)

encoded : encode_value_with_limit two_fields 100 ≡ ok two_fields_bytes
encoded =
    rw (← two_fields-encoding) (
      encode_value_with_limit-total two_fields 100 (omega arith) short (omega arith)
        two_fields-Fits)

encode_value_with_limit-total_example :
    encode_value_with_limit two_fields 100 ≡ ok (encoding two_fields)
encode_value_with_limit-total_example =
    encode_value_with_limit-total two_fields 100 (omega arith) short (omega arith) two_fields-Fits

encode_value_with_limit-ok_example :
    (two_fields_bytes ≡ encoding two_fields)
    × (length two_fields_bytes ≤ 100)
    × (size two_fields ≤ max_container_items)
    × Fits 0 two_fields
encode_value_with_limit-ok_example =
    encode_value_with_limit-ok two_fields 100 two_fields_bytes encoded

decode_value-encoding_example :
    decode_value (encoding two_fields ++ (0 ∷ [])) ≡ ok (normal two_fields, 0 ∷ [])
decode_value-encoding_example =
    decode_value-encoding two_fields (0 ∷ []) two_fields-IsGoValue two_fields-Fits (omega arith)

decode-encode_example : decode_value (two_fields_bytes ++ (0 ∷ [])) ≡ ok (normal two_fields, 0 ∷ [])
decode-encode_example =
    decode-encode two_fields 100 two_fields_bytes (0 ∷ []) two_fields-IsGoValue encoded

-- The value that comes back has its keys in order.
two_fields-normal :
    normal two_fields
    ≡ obj (field (codes "a") (bytes (codes "xy")) (field (codes "b") (int (pos 3)) end))
unfolding normal sort_keys insert_key bytes_lt
two_fields-normal = refl

abbrev set_one : Payload
set_one = key_values (codes "SET") (codes "k" ∷ []) (cons (int (pos 1)) nil)

abbrev set_one_bytes : Bytes
set_one_bytes =
    6
    ∷ (be 4 2
        ++ (be 4 7
            ++ (codes "command"
                ++ (4
                    ∷ (be 4 3
                        ++ (codes "SET"
                            ++ (be 4 4
                                ++ (codes "args"
                                    ++ (5
                                        ∷ (be 4 2
                                            ++ (4
                                                ∷ (be 4 1 ++ (codes "k" ++ (3 ∷ be 8 1))))))))))))))
