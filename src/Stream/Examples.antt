-- ===== src/Stream/Examples.antt =====
-- The stream identifier 12-5.
use ferricstore_go.Base.{
  ◌<◌, ◌≡◌, refl, ◌∷◌, ◌++◌, ◌+◌, ◌*◌, ◌^◌, ◌↔◌, some, none, ◌&&◌, leb, if◌then◌else◌, arith,
}
use ferricstore_go.Base.Bytes.{codes}
use ferricstore_go.Stream.Id.{
  dash, max_uint64, parse_part, parse_stream_id_text, compare_stream_ids, before, equal, after,
}
use ferricstore_go.Stream.IdLaws.{
  value_of, all_digits, parse_part-value, parse_stream_id_text-parts, compare_stream_ids-order,
}

parse_part-value_example : parse_part 0 (codes "120") ≡ (
    if all_digits (codes "120") && leb (value_of 0 (codes "120")) max_uint64
    then some (value_of 0 (codes "120"))
    else none)
parse_part-value_example = parse_part-value 0 (codes "120") (omega arith)

parse_stream_id_text-parts_example :
    parse_stream_id_text (codes "12" ++ (dash ∷ codes "5")) ≡ some (12, 5)
parse_stream_id_text-parts_example =
    parse_stream_id_text-parts (codes "12") (codes "5") refl refl (omega arith) (omega arith)
      (omega arith) (omega arith)

compare_stream_ids-order_example :
    ((compare_stream_ids 12 5 12 6 ≡ before) ↔ (12 * 2 ^ 64 + 5 < 12 * 2 ^ 64 + 6))
    × ((compare_stream_ids 12 5 12 6 ≡ equal) ↔ (12 * 2 ^ 64 + 5 ≡ 12 * 2 ^ 64 + 6))
    × ((compare_stream_ids 12 5 12 6 ≡ after) ↔ (12 * 2 ^ 64 + 6 < 12 * 2 ^ 64 + 5))
compare_stream_ids-order_example = compare_stream_ids-order 12 5 12 6 (omega arith) (omega arith)
