-- ===== src/Db/MemTable/Order.antt =====
-- Entries as values, and the order in which the table keeps their bytes.
use quas_db.Base.{
  ℕ, ◌+◌, ◌%◌, ◌^◌, ◌<◌, ◌≤◌, ◌≡◌, ◌≢◌, sym, ap, ◌∙◌, List, [], ◌++◌, length, append-nil, arith,
}
use quas_db.Util.Order
use quas_db.Util.Order.{Ordering, IsOrder, flip}
use quas_db.Util.Coding.{encode_varint32, put_length_prefixed_slice, put_varint32}
use quas_db.Util.Comparator.{Comparator}
use quas_db.Db.Format.{
  ValueType, deletion, value, type_code, ParsedInternalKey, append_internal_key, make_lookup_key,
  memtable_key,
}
use quas_db.Db.Format.Compare.{key_order, internal_compare-append, internal_compare-IsOrder}
use quas_db.Db.Format.Lookup.{seek_key, memtable_key-put, length-append_internal_key}
use quas_db.Db.MemTable.{prefixed, entry_bytes, key_compare}
use quas_db.Db.MemTable.Entry.{prefixed-entry_bytes, prefixed-put}

pub record Entry : Type 0 where
  pub sequence : ℕ
  pub type : ValueType
  pub user_key : List ℕ
  pub val : List ℕ

abbrev pub bytes_of : Entry → List ℕ
bytes_of e = entry_bytes e.sequence e.type e.user_key e.val

abbrev pub key_of : Entry → ParsedInternalKey
key_of e = record { user_key = e.user_key; sequence = e.sequence; type = e.type }

-- The sizes fit their prefixes, and the sequence number its 56 bits.
abbrev pub IsEntry : Entry → Type 0
IsEntry e = (e.sequence < 2 ^ 56) × (length e.user_key + 8 < 2 ^ 32) × (length e.val < 2 ^ 32)

prefixed-memtable_key :
    (key : List ℕ) (s : ℕ)
    → length key + 8 < 2 ^ 32
    → (prefixed (memtable_key (make_lookup_key key s))).0 ≡ append_internal_key [] (seek_key key s)
unfolding put_length_prefixed_slice put_varint32
prefixed-memtable_key key s h =
    let k = append_internal_key [] (seek_key key s) in
    ap (λ (t : List ℕ). (prefixed t).0) (memtable_key-put key s)
    ∙ ap (λ (t : List ℕ). (prefixed (encode_varint32 (length k % 2 ^ 32) ++ t)).0)
        (sym (append-nil k))
    ∙ ap (λ (p : List ℕ × List ℕ). p.0)
        (prefixed-put k [] (omega (arith, length-append_internal_key (seek_key key s))))

type_code-le : (t : ValueType) → type_code t ≤ 1
type_code-le deletion = omega arith
type_code-le value = omega arith

module _ (user : Comparator) where
  -- Two entries compare by their keys.
  pub key_compare-bytes_of :
      (a b : Entry)
      → IsEntry a
      → IsEntry b
      → key_compare user (bytes_of a) (bytes_of b) ≡ key_order user (key_of a) (key_of b)
  unfolding key_compare
  key_compare-bytes_of a b (sa, ka, va) (sb, kb, vb) =
      rw
        (
          prefixed-entry_bytes a.sequence a.type a.user_key a.val ka,
          prefixed-entry_bytes b.sequence b.type b.user_key b.val kb,
        )
        (internal_compare-append user (key_of a) (key_of b) sa sb)

  -- An entry and a lookup key compare by their keys.
  pub key_compare-memtable_key :
      (a : Entry) (key : List ℕ) (s : ℕ)
      → IsEntry a
      → length key + 8 < 2 ^ 32
      → s < 2 ^ 56
      → key_compare user (bytes_of a) (memtable_key (make_lookup_key key s))
        ≡ key_order user (key_of a) (seek_key key s)
  unfolding key_compare
  key_compare-memtable_key a key s (sa, ka, va) hk hs =
      rw
        (prefixed-entry_bytes a.sequence a.type a.user_key a.val ka, prefixed-memtable_key key s hk)
        (internal_compare-append user (key_of a) (seek_key key s) sa hs)

  -- Visible to a reader of `key` at `s`.
  abbrev pub IsVisible : List ℕ → ℕ → Entry → Type 0
  IsVisible key s e = (user.compare e.user_key key ≡ Ordering.eq) × (e.sequence ≤ s)

  module _ (o : IsOrder user.compare) (key : List ℕ) (s : ℕ) where
    pub visible-not-lt :
        (e : Entry) → IsVisible key s e → key_order user (key_of e) (seek_key key s) ≢ Ordering.lt
    visible-not-lt e v = ground (arith, type_code-le e.type)

    pub not-lt-visible :
        (e : Entry)
        → user.compare e.user_key key ≡ Ordering.eq
        → key_order user (key_of e) (seek_key key s) ≢ Ordering.lt
        → e.sequence ≤ s
    not-lt-visible e same h = ground arith

    -- Of two entries of the key the one that stands first is the newer one.
    pub first_newer :
        (a b : Entry)
        → user.compare a.user_key key ≡ Ordering.eq
        → user.compare b.user_key key ≡ Ordering.eq
        → key_order user (key_of a) (key_of b) ≢ Ordering.gt
        → b.sequence ≤ a.sequence
    unfolding flip
    first_newer a b ha hb h =
        ground
          (arith, o.flipped b.user_key key, Order.eq_trans user.compare o a.user_key key b.user_key)

    -- An entry of another key from the lookup key on stands behind all of the key.
    pub other_behind :
        (a b : Entry)
        → user.compare a.user_key key ≢ Ordering.eq
        → key_order user (key_of a) (seek_key key s) ≢ Ordering.lt
        → user.compare b.user_key key ≡ Ordering.eq
        → key_order user (key_of a) (key_of b) ≡ Ordering.gt
    unfolding flip
    other_behind a b ha h hb = ground (
      arith,
      o.flipped a.user_key key,
      o.flipped b.user_key a.user_key,
      Order.le_lt_trans user.compare o b.user_key key a.user_key,
    )

  -- Entries with different sequence numbers never compare equal.
  pub different_sequences :
      (a b : Entry) → a.sequence < b.sequence → key_order user (key_of a) (key_of b) ≢ Ordering.eq
  different_sequences a b h = ground arith

-- The memtable orders its entries.
pub key_compare-IsOrder : (user : Comparator) → IsOrder user.compare → IsOrder (key_compare user)
unfolding key_compare
key_compare-IsOrder user o =
    let keys = internal_compare-IsOrder user o in
    record {
      flipped = λ a b. keys.flipped (prefixed a).0 (prefixed b).0;
      le_trans = λ a b c. keys.le_trans (prefixed a).0 (prefixed b).0 (prefixed c).0;
    }
