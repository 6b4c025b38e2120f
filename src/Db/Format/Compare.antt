-- ===== src/Db/Format/Compare.antt =====
-- The order of internal keys: by user key, then by falling sequence number and type.
use quas_db.Base.{
  ℕ, ◌^◌, ◌<◌, ◌≡◌, ◌≢◌, inl, inr, ◌&&◌, List, [], ◌++◌, length, ltb, if◌then◌else◌, Bool-cases,
  arith,
}
use quas_db.Util.Order
use quas_db.Util.Order.{Ordering, flip, is_lt, IsOrder}
use quas_db.Util.Coding.{encode_fixed64, put_fixed64}
use quas_db.Util.Comparator.{Comparator, IsComparator}
use quas_db.Db.Format.{
  ValueType, deletion, value, type_code, ParsedInternalKey, pack_sequence_and_type,
  append_internal_key, extract_user_key, by_tag, max_sequence_number, value_type_for_seek,
  internal_compare, internal_shortest_separator, internal_short_successor,
}
use quas_db.Db.Format.Keys.{pack_sum, pack-fits, extract-with_tag, tag_of-with_tag}

module _ (user : Comparator) where
  -- The order of two encoded keys, read off their parts.
  abbrev pub key_order : ParsedInternalKey → ParsedInternalKey → Ordering
  key_order a b = elim (user.compare a.user_key b.user_key) [
    | Ordering.lt ↦ Ordering.lt
    | Ordering.eq ↦
        if ltb b.sequence a.sequence
        then Ordering.lt
        else if ltb a.sequence b.sequence
        then Ordering.gt
        else by_tag (type_code a.type) (type_code b.type)
    | Ordering.gt ↦ Ordering.gt
  ]

  by_tag-pack :
      (m n : ℕ) (s t : ValueType)
      → m < 2 ^ 56
      → n < 2 ^ 56
      → by_tag (pack_sequence_and_type m s) (pack_sequence_and_type n t) ≡ (
          if ltb n m
          then Ordering.lt
          else if ltb m n
          then Ordering.gt
          else by_tag (type_code s) (type_code t))
  by_tag-pack m n deletion deletion hm hn = ground (arith, pack_sum m deletion, pack_sum n deletion)
  by_tag-pack m n deletion value hm hn = ground (arith, pack_sum m deletion, pack_sum n value)
  by_tag-pack m n value deletion hm hn = ground (arith, pack_sum m value, pack_sum n deletion)
  by_tag-pack m n value value hm hn = ground (arith, pack_sum m value, pack_sum n value)

  -- Encoded internal keys are ordered by the user's comparator, then with the larger sequence number
  -- first, then with the larger type first, where the sequence numbers are below 2^56.
  pub internal_compare-append :
      (a b : ParsedInternalKey)
      → a.sequence < 2 ^ 56
      → b.sequence < 2 ^ 56
      → internal_compare user (append_internal_key [] a) (append_internal_key [] b) ≡ key_order a b
  unfolding internal_compare append_internal_key put_fixed64
  internal_compare-append a b ha hb = ground (
    arith,
    extract-with_tag a.user_key (pack_sequence_and_type a.sequence a.type),
    extract-with_tag b.user_key (pack_sequence_and_type b.sequence b.type),
    tag_of-with_tag a.user_key (pack_sequence_and_type a.sequence a.type)
        (pack-fits a.sequence a.type ha),
    tag_of-with_tag b.user_key (pack_sequence_and_type b.sequence b.type)
        (pack-fits b.sequence b.type hb),
    by_tag-pack a.sequence b.sequence a.type b.type ha hb,
  )

  module _ (o : IsOrder user.compare) where
    internal-flipped : (a b : List ℕ) → internal_compare user b a ≡ flip (internal_compare user a b)
    unfolding internal_compare flip
    internal-flipped a b = ground (arith, o.flipped (extract_user_key a) (extract_user_key b))

    -- Below or equal is transitive on internal keys where the user's comparison is an order.
    internal_compare_trans :
        (a b c : List ℕ)
        → internal_compare user a b ≢ Ordering.gt
        → internal_compare user b c ≢ Ordering.gt
        → internal_compare user a c ≢ Ordering.gt
    unfolding internal_compare
    internal_compare_trans a b c h k = ground (
      arith,
      Order.lt_le_trans user.compare o (extract_user_key a) (extract_user_key b)
          (extract_user_key c),
      Order.le_lt_trans user.compare o (extract_user_key a) (extract_user_key b)
          (extract_user_key c),
      Order.eq_trans user.compare o (extract_user_key a) (extract_user_key b) (extract_user_key c),
    )

    -- Internal keys are totally ordered where user keys are.
    pub internal_compare-IsOrder : IsOrder (internal_compare user)
    internal_compare-IsOrder = record {
      flipped = internal-flipped;
      le_trans = internal_compare_trans;
    }

  module _ (c : IsComparator user) where
    user_lt :
        (a b : List ℕ)
        → user.compare (extract_user_key a) (extract_user_key b) ≡ Ordering.lt
        → internal_compare user a b ≡ Ordering.lt
    unfolding internal_compare
    user_lt a b h = ground arith

    le_refl : (a : List ℕ) → internal_compare user a a ≢ Ordering.gt
    le_refl a =
        ground
          (arith, Order.compare_refl (internal_compare user) (internal_compare-IsOrder c.order) a)

    -- Where the user's comparator keeps its contract and the user key of start is below that of limit,
    -- the separator of internal keys lies in [start, limit).
    pub internal_shortest_separator_between :
        (start limit : List ℕ)
        → user.compare (extract_user_key start) (extract_user_key limit) ≡ Ordering.lt
        → (internal_compare user start (internal_shortest_separator user start limit) ≢ Ordering.gt)
          × (internal_compare user (internal_shortest_separator user start limit) limit
              ≡ Ordering.lt)
    unfolding internal_shortest_separator put_fixed64
    internal_shortest_separator_between start limit h =
        let us = extract_user_key start in
        let tmp = user.find_shortest_separator us (extract_user_key limit) in
        let tag = pack_sequence_and_type max_sequence_number value_type_for_seek in
        elim (Bool-cases (ltb (length tmp) (length us) && is_lt (user.compare us tmp))) [
          | inl kept ↦ rw kept (
            from_lt start (tmp ++ encode_fixed64 tag)
                (rw (extract-with_tag tmp tag) (ground arith)),
            user_lt (tmp ++ encode_fixed64 tag) limit
                (rw (extract-with_tag tmp tag) (c.separator_to us (extract_user_key limit) h)),
          )
          | inr same ↦ rw same (le_refl start, user_lt start limit h)
        ]
      where
        from_lt :
            (a b : List ℕ)
            → user.compare (extract_user_key a) (extract_user_key b) ≡ Ordering.lt
            → internal_compare user a b ≢ Ordering.gt
        from_lt a b e = rw (user_lt a b e) (λ k. cc)

    -- The short successor of an internal key is not below it, where the user's comparator keeps its
    -- contract.
    pub internal_short_successor_from :
        (key : List ℕ) → internal_compare user key (internal_short_successor user key) ≢ Ordering.gt
    unfolding internal_short_successor put_fixed64
    internal_short_successor_from key =
        let uk = extract_user_key key in
        let tmp = user.find_short_successor uk in
        let tag = pack_sequence_and_type max_sequence_number value_type_for_seek in
        elim (Bool-cases (ltb (length tmp) (length uk) && is_lt (user.compare uk tmp))) [
          | inl kept ↦ rw kept (
              rw
                (user_lt key (tmp ++ encode_fixed64 tag)
                  (rw (extract-with_tag tmp tag) (ground arith)))
                (λ k. cc))
          | inr same ↦ rw same (le_refl key)
        ]
