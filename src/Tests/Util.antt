-- ===== src/Tests/Util.antt =====
-- kv/util at concrete inputs.
use quas_db.Base.{
  ◌^◌, ◌≡◌, refl, none, some, [], ◌∷◌, ◌++◌, length, arith, not, ltb, ◌||◌, ◌==◌, if◌then◌else◌,
}
use quas_db.Util.Order.{Ordering}
use quas_db.Util.Hash.{hash, hash_loop}
use quas_db.Util.Logging.{consume_decimal_number}
use quas_db.Util.Logging.Decimal.{leading_number, consume_decimal_number-leading_number}
use quas_db.Util.Coding.{
  decode_fixed32, encode_varint32, encode_varint64, get_varint32, get_varint32_ptr,
  get_varint32_ptr_fallback, get_varint64_ptr, get_varint_loop,
}
use quas_db.Util.Coding.RoundTrip.{get_varint32-encode_varint32}
use quas_db.Util.Slice.{slice_compare}
use quas_db.Util.Comparator.{find_shortest_separator}
use quas_db.Util.Status.{corruption, make_state, message, bytes}
use quas_db.Util.Status.Message.{message-unwritten}

varint_300 : encode_varint64 300 ≡ 0xac ∷ 2 ∷ []
unfolding encode_varint64
varint_300 = refl

-- A padded form, which no encoder writes, is read.
padded : get_varint64_ptr (0x80 ∷ 0 ∷ 7 ∷ []) ≡ some (0, 7 ∷ [])
unfolding get_varint64_ptr get_varint_loop
padded = refl

-- Six bytes with the top bit set are no varint32.
too_long : get_varint32_ptr (0xff ∷ 0xff ∷ 0xff ∷ 0xff ∷ 0xff ∷ 1 ∷ []) ≡ none
unfolding get_varint32_ptr get_varint32_ptr_fallback get_varint_loop
too_long = refl

separator_abc : find_shortest_separator (bytes "abcd") (bytes "abzz") ≡ bytes "abd"
unfolding find_shortest_separator
separator_abc = refl

below : slice_compare (bytes "abcd") (bytes "abzz") ≡ Ordering.lt
unfolding slice_compare
below = refl

get_varint32-encode_varint32_example :
    get_varint32 (encode_varint32 300 ++ (7 ∷ [])) ≡ some (300, 7 ∷ [])
get_varint32-encode_varint32_example = get_varint32-encode_varint32 300 (7 ∷ []) (omega arith)

message-unwritten_example :
    message (
      make_state
        (0 ∷ 0 ∷ 0 ∷ 0 ∷ 0 ∷ 0 ∷ 0 ∷ 77 ∷ 0 ∷ 0 ∷ 0 ∷ [])
        corruption
        (bytes "a")
        (bytes "bcd"))
    ≡ bytes "a:Mbcd"
message-unwritten_example =
    message-unwritten corruption (0 ∷ 0 ∷ 0 ∷ 0 ∷ []) (0 ∷ []) (0 ∷ []) (bytes "a") refl refl refl 0
      77 (0 ∷ 0 ∷ 0 ∷ []) (bytes "bcd") refl (omega arith) (omega arith) (omega arith)

-- One above the largest uint64.
consume_decimal_number-leading_number_example :
    consume_decimal_number (bytes "18446744073709551616x") ≡ (
      if not (ltb (leading_number (bytes "18446744073709551616x") 0).0 (2 ^ 64))
        || (length (leading_number (bytes "18446744073709551616x") 0).1
            == length (bytes "18446744073709551616x"))
      then none
      else some (leading_number (bytes "18446744073709551616x") 0))
consume_decimal_number-leading_number_example =
    consume_decimal_number-leading_number (bytes "18446744073709551616x")

-- The values that kv/test/hash_test.cpp expects.
hash_of_nothing : hash [] 0xbc9f1d34 ≡ 0xbc9f1d34
unfolding hash hash_loop
hash_of_nothing = refl

hash_of_one : hash (0x62 ∷ []) 0xbc9f1d34 ≡ 0xef1345c4
unfolding hash hash_loop
hash_of_one = refl

hash_of_four : hash (0xe1 ∷ 0x80 ∷ 0xb9 ∷ 0x32 ∷ []) 0xbc9f1d34 ≡ 0xed21633a
unfolding hash hash_loop decode_fixed32
hash_of_four = refl
