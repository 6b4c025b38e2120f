-- ===== src/Db/Format/Lookup.antt =====
-- LookupKey: its three views, and where it stands among the entries of its user key.
use quas_db.Base.{
  ℕ, ◌+◌, ◌%◌, ◌^◌, ◌<◌, ◌≡◌, ◌↔◌, sym, ap, append-nil, ◌∙◌, some, List, [], ◌++◌, length, take,
  drop-append, take_front, length-append, arith,
}
use quas_db.Util.Order
use quas_db.Util.Order.{Ordering, IsOrder}
use quas_db.Util.Coding.{
  encode_fixed64, encode_varint32, put_fixed64, get_length_prefixed_slice,
  put_length_prefixed_slice, put_varint32,
}
use quas_db.Util.Coding.RoundTrip.{get_length_prefixed_slice-put}
use quas_db.Util.Comparator.{Comparator}
use quas_db.Db.Format.{
  ValueType, deletion, value, ParsedInternalKey, append_internal_key, pack_sequence_and_type,
  value_type_for_seek, internal_compare, make_lookup_key, memtable_key, internal_key,
  lookup_user_key,
}
use quas_db.Db.Format.Keys.{length-with_tag}
use quas_db.Db.Format.Compare.{internal_compare-append, key_order}

-- The internal key that a lookup of `user` at sequence number `s` searches for.
abbrev pub seek_key : List ℕ → ℕ → ParsedInternalKey
seek_key user s = record { user_key = user; sequence = s; type = value_type_for_seek }

pub internal_key-make :
    (user : List ℕ) (s : ℕ)
    → internal_key (make_lookup_key user s) ≡ append_internal_key [] (seek_key user s)
unfolding internal_key make_lookup_key append_internal_key put_fixed64
internal_key-make user s =
    drop-append (encode_varint32 ((length user + 8) % 2 ^ 32))
      (user ++ encode_fixed64 (pack_sequence_and_type s value_type_for_seek))

pub memtable_key-put :
    (user : List ℕ) (s : ℕ)
    → memtable_key (make_lookup_key user s)
      ≡ put_length_prefixed_slice [] (append_internal_key [] (seek_key user s))
unfolding memtable_key make_lookup_key put_length_prefixed_slice put_varint32 append_internal_key
    put_fixed64
memtable_key-put user s =
    let tag = pack_sequence_and_type s value_type_for_seek in
    ap (λ n. encode_varint32 (n % 2 ^ 32) ++ (user ++ encode_fixed64 tag))
      (sym (length-with_tag user tag))

pub length-append_internal_key :
    (key : ParsedInternalKey) → length (append_internal_key [] key) ≡ length key.user_key + 8
unfolding append_internal_key put_fixed64
length-append_internal_key key =
    length-with_tag key.user_key (pack_sequence_and_type key.sequence key.type)

pub lookup_user_key-make : (user : List ℕ) (s : ℕ) → lookup_user_key (make_lookup_key user s) ≡ user
unfolding lookup_user_key make_lookup_key
lookup_user_key-make user s =
    let size = encode_varint32 ((length user + 8) % 2 ^ 32) in
    let tag = pack_sequence_and_type s value_type_for_seek in
    ap (take _) (drop-append size (user ++ encode_fixed64 tag))
    ∙ take_front _ user (encode_fixed64 tag)
        (omega (arith, length-append size (user ++ encode_fixed64 tag), length-with_tag user tag))

-- The three views of a LookupKey agree: internal_key is the encoded key, user_key the user key, and
-- memtable_key the internal key behind its length, which is below 2^32.
pub lookup_key_views :
    (user : List ℕ) (s : ℕ)
    → length user + 8 < 2 ^ 32
    → (internal_key (make_lookup_key user s) ≡ append_internal_key [] (seek_key user s))
      × (lookup_user_key (make_lookup_key user s) ≡ user)
      × (get_length_prefixed_slice (memtable_key (make_lookup_key user s))
          ≡ some (append_internal_key [] (seek_key user s), []))
lookup_key_views user s h = (
  internal_key-make user s,
  lookup_user_key-make user s,
  rw (memtable_key-put user s) (
      rw append-nil at (
        get_length_prefixed_slice-put (append_internal_key [] (seek_key user s)) []
          (omega (arith, length-append_internal_key (seek_key user s))))),
)

-- Among the entries of one user key, those newer than `s` stand before the lookup key for `s`, and
-- the others do not, where the user's comparison is an order and the numbers are below 2^56.
pub lookup_key_order :
    (user : Comparator) (o : IsOrder user.compare) (key : List ℕ) (s n : ℕ) (t : ValueType)
    → s < 2 ^ 56
    → n < 2 ^ 56
    → (internal_compare user
          (append_internal_key [] (record { user_key = key; sequence = n; type = t }))
          (internal_key (make_lookup_key key s))
        ≡ Ordering.lt)
      ↔ (s < n)
lookup_key_order user o key s n t hs hn =
    rw (internal_key-make key s)
      (rw (internal_compare-append user entry (seek_key key s) hn hs) (same_user t))
  where
    entry : ParsedInternalKey
    entry = record { user_key = key; sequence = n; type = t }

    same_user :
        (t : ValueType)
        → (key_order user (record { user_key = key; sequence = n; type = t }) (seek_key key s)
            ≡ Ordering.lt)
          ↔ (s < n)
    same_user deletion = ground (arith, Order.compare_refl user.compare o key)
    same_user value = ground (arith, Order.compare_refl user.compare o key)
