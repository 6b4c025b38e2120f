-- ===== src/Db/Format.antt =====
-- kv/db/dbformat.h and kv/db/dbformat.cpp: internal keys, which are a user key with a sequence
-- number and a value type behind it, their order, and the keys for lookups.
pub mod Keys
pub mod Compare
pub mod Lookup
use quas_db.Base.{
  ℕ, ◌+◌, ◌-◌, ◌*◌, ◌/◌, ◌%◌, ◌^◌, bit_or, bit_and, ltb, leb, if◌then◌else◌, ◌&&◌, Option, none,
  some, List, [], ◌++◌, length, take, drop,
}
use quas_db.Util.Order.{Ordering, is_lt}
use quas_db.Util.Coding.{encode_fixed64, put_fixed64, decode_fixed64, encode_varint32}
use quas_db.Util.Comparator.{Comparator}

pub data ValueType : Type 0 where
  deletion value : ValueType

abbrev pub type_code : ValueType → ℕ
type_code deletion = 0
type_code value = 1

abbrev pub value_type_for_seek : ValueType
value_type_for_seek = value

abbrev pub read_bytes_period : ℕ
read_bytes_period = 1048576

abbrev pub max_sequence_number : ℕ
max_sequence_number = 2 ^ 56 - 1

pub record ParsedInternalKey : Type 0 where
  pub user_key : List ℕ
  pub sequence : ℕ
  pub type : ValueType

unfoldable pub pack_sequence_and_type : ℕ → ValueType → ℕ
pack_sequence_and_type seq t = bit_or (seq * 2 ^ 8 % 2 ^ 64) (type_code t)

unfoldable pub append_internal_key : List ℕ → ParsedInternalKey → List ℕ
append_internal_key result key =
    put_fixed64 (result ++ key.user_key) (pack_sequence_and_type key.sequence key.type)

unfoldable pub extract_user_key : List ℕ → List ℕ
extract_user_key internal_key = take (length internal_key - 8) internal_key

-- The last eight bytes as a number.
unfoldable pub tag_of : List ℕ → ℕ
tag_of key = decode_fixed64 (drop (length key - 8) key)

unfoldable pub key_with_tag : List ℕ → ℕ → Option ParsedInternalKey
key_with_tag user num =
    let c = bit_and num 0xff % 256 in
    if leb c (type_code value)
    then some (record {
      user_key = user;
      sequence = num / 2 ^ 8;
      type = if ltb c 1 then deletion else value;
    })
    else none

-- `none` for the return value false; the parsed key is then undefined in the source.
unfoldable pub parse_internal_key : List ℕ → Option ParsedInternalKey
parse_internal_key internal_key =
    if ltb (length internal_key) 8
    then none
    else key_with_tag (extract_user_key internal_key) (tag_of internal_key)

abbrev pub by_tag : ℕ → ℕ → Ordering
by_tag anum bnum =
    if ltb bnum anum then Ordering.lt else if ltb anum bnum then Ordering.gt else Ordering.eq

-- InternalKeyComparator over the user's comparator.
module _ (user : Comparator) where
  unfoldable pub internal_compare : List ℕ → List ℕ → Ordering
  internal_compare akey bkey = elim (user.compare (extract_user_key akey) (extract_user_key bkey)) [
    | Ordering.lt ↦ Ordering.lt
    | Ordering.eq ↦ by_tag (tag_of akey) (tag_of bkey)
    | Ordering.gt ↦ Ordering.gt
  ]

  -- Both shortening methods end alike: keep the new user key if it is shorter and larger.
  abbrev shortened : List ℕ → List ℕ → List ℕ → List ℕ
  shortened key user_key tmp =
      if ltb (length tmp) (length user_key) && is_lt (user.compare user_key tmp)
      then put_fixed64 tmp (pack_sequence_and_type max_sequence_number value_type_for_seek)
      else key

  unfoldable pub internal_shortest_separator : List ℕ → List ℕ → List ℕ
  internal_shortest_separator start limit =
      let user_start = extract_user_key start in
      shortened start user_start (user.find_shortest_separator user_start (extract_user_key limit))

  unfoldable pub internal_short_successor : List ℕ → List ℕ
  internal_short_successor key =
      let user_key = extract_user_key key in
      shortened key user_key (user.find_short_successor user_key)

-- The buffer of a LookupKey from `start_` to `end_`, with the offset of `kstart_`.
pub record LookupKey : Type 0 where
  pub buffer : List ℕ
  pub kstart : ℕ

unfoldable pub make_lookup_key : List ℕ → ℕ → LookupKey
make_lookup_key user_key s =
    let size = encode_varint32 ((length user_key + 8) % 2 ^ 32) in
    record {
      buffer = size ++ (user_key ++ encode_fixed64 (pack_sequence_and_type s value_type_for_seek));
      kstart = length size;
    }

unfoldable pub memtable_key : LookupKey → List ℕ
memtable_key k = k.buffer

unfoldable pub internal_key : LookupKey → List ℕ
internal_key k = drop k.kstart k.buffer

unfoldable pub lookup_user_key : LookupKey → List ℕ
lookup_user_key k = take (length k.buffer - k.kstart - 8) (drop k.kstart k.buffer)
