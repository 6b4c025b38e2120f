-- ===== src/Db/Format/Keys.antt =====
-- Internal keys: packing, appending and parsing.
use quas_db.Base.{
  ℕ, ◌+◌, ◌*◌, ◌%◌, ◌^◌, ◌≤◌, ◌<◌, ◌≡◌, ap, ◌∙◌, none, some, List, [], ◌++◌, length, take_front,
  drop_front, length-append, append-nil, arith, ltb, false, ◌⊎◌, bit_or,
}
use quas_db.Base.Bits.{bit_or_low, bit_and_255}
use quas_db.Util.Coding.{encode_fixed64, put_fixed64, decode_fixed64}
use quas_db.Util.Coding.Fixed.{decode_fixed64-encode_fixed64, length-encode_fixed64}
use quas_db.Db.Format.{
  ValueType, deletion, value, type_code, ParsedInternalKey, pack_sequence_and_type,
  append_internal_key, key_with_tag, parse_internal_key, extract_user_key, tag_of,
}

abbrev pub encode_key : ParsedInternalKey → List ℕ
encode_key key = append_internal_key [] key

-- The sequence number is in the upper 56 bits, the type in the low 8.
pub pack_sum :
    (seq : ℕ) (t : ValueType)
    → seq < 2 ^ 56
    → pack_sequence_and_type seq t ≡ seq * 2 ^ 8 + type_code t
unfolding pack_sequence_and_type
pack_sum seq deletion h = omega (arith, no_wrap seq h, bit_or_low 8 seq 0)
  where
    no_wrap : (s : ℕ) → s < 2 ^ 56 → bit_or (s * 2 ^ 8 % 2 ^ 64) 0 ≡ bit_or (s * 2 ^ 8) 0
    no_wrap s h = ap (λ (t : ℕ). bit_or t 0) (omega arith)
pack_sum seq value h = omega (arith, no_wrap seq h, bit_or_low 8 seq 1)
  where
    no_wrap : (s : ℕ) → s < 2 ^ 56 → bit_or (s * 2 ^ 8 % 2 ^ 64) 1 ≡ bit_or (s * 2 ^ 8) 1
    no_wrap s h = ap (λ (t : ℕ). bit_or t 1) (omega arith)

pub pack-fits : (seq : ℕ) (t : ValueType) → seq < 2 ^ 56 → pack_sequence_and_type seq t < 2 ^ 64
pack-fits seq deletion h = omega (arith, pack_sum seq deletion h)
pack-fits seq value h = omega (arith, pack_sum seq value h)

-- The parts of any user key with eight bytes behind it.
module _ (user : List ℕ) (tag : ℕ) where
  pub length-with_tag : length (user ++ encode_fixed64 tag) ≡ length user + 8
  length-with_tag =
      omega (arith, length-append user (encode_fixed64 tag), length-encode_fixed64 tag)

  pub extract-with_tag : extract_user_key (user ++ encode_fixed64 tag) ≡ user
  unfolding extract_user_key
  extract-with_tag = take_front _ user (encode_fixed64 tag) (omega (arith, length-with_tag))

  pub tag_of-with_tag : tag < 2 ^ 64 → tag_of (user ++ encode_fixed64 tag) ≡ tag
  unfolding tag_of
  tag_of-with_tag h =
      ap decode_fixed64 (drop_front _ user (encode_fixed64 tag) (omega (arith, length-with_tag)))
      ∙ (rw append-nil at (decode_fixed64-encode_fixed64 tag [] h))

key_with_tag-pack :
    (user : List ℕ) (seq : ℕ) (t : ValueType)
    → seq < 2 ^ 56
    → key_with_tag user (pack_sequence_and_type seq t)
      ≡ some (record { user_key = user; sequence = seq; type = t })
unfolding key_with_tag
key_with_tag-pack user seq deletion h =
    rw (pack_sum seq deletion h) (ground (arith, bit_and_255 (seq * 2 ^ 8 + 0)))
key_with_tag-pack user seq value h =
    rw (pack_sum seq value h) (ground (arith, bit_and_255 (seq * 2 ^ 8 + 1)))

-- Parsing what AppendInternalKey wrote gives the key back, where its sequence number is below 2^56.
pub parse_internal_key-append :
    (key : ParsedInternalKey)
    → key.sequence < 2 ^ 56
    → parse_internal_key (append_internal_key [] key) ≡ some key
unfolding parse_internal_key append_internal_key put_fixed64
parse_internal_key-append key h =
    let tag = pack_sequence_and_type key.sequence key.type in
    rw
      (
        long_enough key.user_key tag,
        extract-with_tag key.user_key tag,
        tag_of-with_tag key.user_key tag (pack-fits key.sequence key.type h),
      )
      (key_with_tag-pack key.user_key key.sequence key.type h)
  where
    long_enough : (user : List ℕ) (tag : ℕ) → ltb (length (user ++ encode_fixed64 tag)) 8 ≡ false
    long_enough user tag = rw (length-with_tag user tag) (ground arith)

-- A string that ParseInternalKey accepts has at least eight bytes; the parsed key has the bytes
-- before the last eight as its user key, and the tag of the string is its sequence number and type.
pub parse_internal_key-ok :
    (k : List ℕ) (key : ParsedInternalKey)
    → parse_internal_key k ≡ some key
    → (8 ≤ length k)
      × (key.user_key ≡ extract_user_key k)
      × (tag_of k ≡ key.sequence * 256 + type_code key.type)
unfolding parse_internal_key key_with_tag
parse_internal_key-ok k key h = ground (arith, bit_and_255 (tag_of k))

pub parse_internal_key-none :
    (k : List ℕ) → parse_internal_key k ≡ none → (length k < 8) ⊎ (1 < tag_of k % 256)
unfolding parse_internal_key key_with_tag
parse_internal_key-none k h = ground (arith, bit_and_255 (tag_of k))
