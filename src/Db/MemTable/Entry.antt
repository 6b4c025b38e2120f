-- ===== src/Db/MemTable/Entry.antt =====
-- The bytes of an entry: they fill what was allocated, and give back its parts.
use quas_db.Base.{
  ℕ, ◌+◌, ◌-◌, ◌%◌, ◌^◌, ◌<◌, bit_and, ◌≡◌, refl, sym, ap, ◌∙◌, List, [], ◌++◌, length, take, drop,
  length-append, append_assoc, append-nil, take-append, drop-append, take_front, drop_front, arith,
  some, ◌==◌, if◌then◌else◌,
}
use quas_db.Base.Bits.{bit_and_255}
use quas_db.Util.Order.{is_eq}
use quas_db.Util.Coding.{
  encode_varint32, encode_fixed64, get_varint32, get_varint32_ptr, put_fixed64, varint_length,
}
use quas_db.Util.Coding.Encode.{encode_varint32-encode_varint64, varint_length-encode_varint64}
use quas_db.Util.Coding.RoundTrip.{get_varint32-encode_varint32}
use quas_db.Util.Coding.Fixed.{decode_fixed64-encode_fixed64, length-encode_fixed64}
use quas_db.Util.Comparator.{Comparator}
use quas_db.Db.Format.{
  ValueType, deletion, value, type_code, append_internal_key, pack_sequence_and_type,
}
use quas_db.Db.Format.Keys.{pack_sum, pack-fits, length-with_tag}
use quas_db.Db.MemTable.{prefixed, encoded_len, entry_bytes, answer_from, Answer, found, deleted}

small_mod : (n : ℕ) → n < 2 ^ 32 → n % 2 ^ 32 ≡ n
small_mod n h = omega arith

read_varint32 :
    (v : ℕ) (rest : List ℕ)
    → v < 2 ^ 32
    → get_varint32_ptr (encode_varint32 (v % 2 ^ 32) ++ rest) ≡ some (v, rest)
unfolding get_varint32
read_varint32 v rest h = rw (small_mod v h) (get_varint32-encode_varint32 v rest h)

length-varint32 : (v : ℕ) → v < 2 ^ 32 → length (encode_varint32 v) ≡ varint_length v
length-varint32 v h =
    ap length (encode_varint32-encode_varint64 v h)
    ∙ sym (varint_length-encode_varint64 v (omega arith))

-- Add writes exactly the bytes that it allocated, where the key and the value have sizes that fit a
-- varint32.
pub length-entry_bytes :
    (s : ℕ) (type : ValueType) (key val : List ℕ)
    → length key + 8 < 2 ^ 32
    → length val < 2 ^ 32
    → length (entry_bytes s type key val) ≡ encoded_len key val
unfolding entry_bytes encoded_len pack_sequence_and_type
length-entry_bytes s type key val hk hv =
    let tag = encode_fixed64 (pack_sequence_and_type s type) in
    let size = encode_varint32 (length val) in
    rw (small_mod (length key + 8) hk, small_mod (length val) hv)
      (omega (
        arith,
        length-varint32 (length key + 8) hk,
        length-varint32 (length val) hv,
        length-append (encode_varint32 (length key + 8)) (key ++ (tag ++ (size ++ val))),
        length-append key (tag ++ (size ++ val)),
        length-append tag (size ++ val),
        length-append size val,
        length-encode_fixed64 (pack_sequence_and_type s type),
      ))

-- A slice that was written behind its length is read again.
pub prefixed-put :
    (v rest : List ℕ)
    → length v < 2 ^ 32
    → prefixed (encode_varint32 (length v % 2 ^ 32) ++ (v ++ rest)) ≡ (v, rest)
unfolding prefixed
prefixed-put v rest h =
    rw (prefixed, read_varint32 (length v) (v ++ rest) h, take-append, drop-append) refl

-- The slice at the start of an entry is its internal key.
pub prefixed-entry_bytes :
    (s : ℕ) (type : ValueType) (key val : List ℕ)
    → length key + 8 < 2 ^ 32
    → (prefixed (entry_bytes s type key val)).0
      ≡ append_internal_key [] (record { user_key = key; sequence = s; type = type })
unfolding entry_bytes prefixed append_internal_key put_fixed64 pack_sequence_and_type
prefixed-entry_bytes s type key val h =
    let tag = encode_fixed64 (pack_sequence_and_type s type) in
    let behind = encode_varint32 (length val % 2 ^ 32) ++ val in
    rw (prefixed, read_varint32 (length key + 8) (key ++ (tag ++ behind)) h)
      (ap (take (length key + 8)) (sym (append_assoc key tag behind))
        ∙ take_front (length key + 8) (key ++ tag) behind
            (omega (arith, length-with_tag key (pack_sequence_and_type s type))))

abbrev pub answer_of : ValueType → List ℕ → Answer
answer_of deletion val = deleted
answer_of value val = found val

type_byte :
    (s : ℕ) (type : ValueType)
    → s < 2 ^ 56
    → bit_and (pack_sequence_and_type s type) 0xff ≡ type_code type
type_byte s deletion h =
    omega (arith, bit_and_255 (pack_sequence_and_type s deletion), pack_sum s deletion h)
type_byte s value h =
    omega (arith, bit_and_255 (pack_sequence_and_type s value), pack_sum s value h)

-- The answer from an entry of the key that is looked up is the entry's.
pub answer_from-entry_bytes :
    (user : Comparator) (s : ℕ) (type : ValueType) (key val user_key : List ℕ)
    → s < 2 ^ 56
    → length key + 8 < 2 ^ 32
    → length val < 2 ^ 32
    → answer_from user user_key (entry_bytes s type key val)
      ≡ (if is_eq (user.compare key user_key) then answer_of type val else Answer.absent)
unfolding entry_bytes answer_from pack_sequence_and_type
answer_from-entry_bytes user s type key val user_key hs hk hv =
    let tag = encode_fixed64 (pack_sequence_and_type s type) in
    let behind = encode_varint32 (length val % 2 ^ 32) ++ val in
    rw
      (
        answer_from,
        read_varint32 (length key + 8) (key ++ (tag ++ behind)) hk,
        take_front (length key + 8 - 8) key (tag ++ behind) (omega arith),
        drop_front (length key + 8 - 8) key (tag ++ behind) (omega arith),
        decode_fixed64-encode_fixed64 (pack_sequence_and_type s type) behind (pack-fits s type hs),
        past_key,
        type_byte s type hs,
        value_is,
      )
      (by_type type)
  where
    past_key :
        drop (length key + 8) (
          key
          ++ (encode_fixed64 (pack_sequence_and_type s type)
              ++ (encode_varint32 (length val % 2 ^ 32) ++ val)))
        ≡ encode_varint32 (length val % 2 ^ 32) ++ val
    past_key =
        ap (drop (length key + 8)) (
          sym (
            append_assoc key (encode_fixed64 (pack_sequence_and_type s type))
              (encode_varint32 (length val % 2 ^ 32) ++ val)))
        ∙ drop_front (length key + 8) (key ++ encode_fixed64 (pack_sequence_and_type s type))
            (encode_varint32 (length val % 2 ^ 32) ++ val)
            (omega (arith, length-with_tag key (pack_sequence_and_type s type)))

    value_is : (prefixed (encode_varint32 (length val % 2 ^ 32) ++ val)).0 ≡ val
    value_is =
        ap (λ (t : List ℕ). (prefixed (encode_varint32 (length val % 2 ^ 32) ++ t)).0)
          (sym (append-nil val))
        ∙ ap (λ (p : List ℕ × List ℕ). p.0) (prefixed-put val [] hv)

    by_type :
        (t : ValueType)
        → (if is_eq (user.compare key user_key)
            then (if type_code t == 1
                then found val
                else if type_code t == 0
                then deleted
                else Answer.absent)
            else Answer.absent)
          ≡ (if is_eq (user.compare key user_key) then answer_of t val else Answer.absent)
    by_type deletion = refl
    by_type value = refl
