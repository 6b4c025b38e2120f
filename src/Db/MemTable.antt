-- ===== src/Db/MemTable.antt =====
-- kv/db/memtable.cpp: entries are strings of bytes, kept in the order of their internal keys. A `char`
-- pointer is the list of the bytes from it on.
pub mod Entry
pub mod Order
pub mod Get
pub mod Batch
use quas_db.Base.{
  ℕ, ◌+◌, ◌-◌, ◌*◌, ◌%◌, ◌^◌, bit_and, bit_or, Bool, true, false, ◌==◌, if◌then◌else◌, Option, none,
  some, List, [], ◌∷◌, ◌++◌, length, take, drop,
}
use quas_db.Util.Order.{Ordering, is_eq}
use quas_db.Util.Coding.{
  encode_varint32, encode_fixed64, decode_fixed64, get_varint32_ptr, put_varint32, varint_length,
}
use quas_db.Util.Comparator.{Comparator}
use quas_db.Db.Format.{
  ValueType, type_code, internal_compare, LookupKey, memtable_key, lookup_user_key,
}
use quas_db.Db.OrderedSet.{OrderedSet}

-- The slice behind its length at the start of some bytes, and the bytes behind it. The bytes are
-- trusted; where they hold no length the source reads at a null pointer.
unfoldable pub prefixed : List ℕ → List ℕ × List ℕ
prefixed buf = elim (get_varint32_ptr buf) [
  | none ↦ ([], [])
  | some (len, p) ↦ (take len p, drop len p)
]

unfoldable pub encode_key : List ℕ → List ℕ
encode_key target = put_varint32 [] (length target % 2 ^ 32) ++ target

-- The size that Add allocates, and the bytes that it writes there.
unfoldable pub encoded_len : List ℕ → List ℕ → ℕ
encoded_len key value =
    let internal_key_size = length key + 8 in
    varint_length internal_key_size
    + internal_key_size
    + varint_length (length value)
    + length value

unfoldable pub entry_bytes : ℕ → ValueType → List ℕ → List ℕ → List ℕ
entry_bytes s type key value =
    encode_varint32 ((length key + 8) % 2 ^ 32)
    ++ (key
        ++ (encode_fixed64 (bit_or (s * 2 ^ 8 % 2 ^ 64) (type_code type))
            ++ (encode_varint32 (length value % 2 ^ 32) ++ value)))

-- What Get answers: a value, that the key is deleted (the status NotFound), or false.
pub data Answer : Type 0 where
  found : List ℕ → Answer
  deleted : Answer
  absent : Answer

-- The answer from the entry that the search stopped at.
unfoldable pub answer_from : Comparator → List ℕ → List ℕ → Answer
answer_from user user_key entry = elim (get_varint32_ptr entry) [
  | none ↦ absent
  | some (key_length, key_ptr) ↦
      let tag = decode_fixed64 (drop (key_length - 8) key_ptr) in
      if is_eq (user.compare (take (key_length - 8) key_ptr) user_key)
      then (if bit_and tag 0xff == 1
          then found (prefixed (drop key_length key_ptr)).0
          else if bit_and tag 0xff == 0
          then deleted
          else absent)
      else absent
]

module _ (user : Comparator) where
  unfoldable pub key_compare : List ℕ → List ℕ → Ordering
  key_compare aptr bptr = internal_compare user (prefixed aptr).0 (prefixed bptr).0

  module _ {T : Type 0} (table : OrderedSet (List ℕ) T) where
    unfoldable pub add : T → ℕ → ValueType → List ℕ → List ℕ → T
    add mem s type key value = table.insert mem (entry_bytes s type key value)

    unfoldable pub get : T → LookupKey → Answer
    get mem key = elim (table.seek mem (memtable_key key)) [
      | none ↦ absent
      | some entry ↦ answer_from user (lookup_user_key key) entry
    ]
