-- ===== src/Db/SkipList/Seek.antt =====
-- Where a search ends: at the first node whose key is not before the one that is looked for.
use quas_db.Base.{
  ℕ, ◌-◌, ◌≤◌, ◌≡◌, ◌≢◌, ◌⊎◌, inl, inr, refl, ap, ◌∙◌, true, false, Bool-cases, Option, none, some,
  Option-cases, arith,
}
use quas_db.Util.Order
use quas_db.Util.Order.{Ordering, IsOrder, flip, is_eq}
use quas_db.Db.SkipList.{SkipList, find_greater_or_equal, is_equal, contains, seek}
use quas_db.Db.SkipList.Shape.{IsNode, IsSkipList, Stops}
use quas_db.Db.SkipList.Find.{find_greater_or_equal-Finds}

module _ {K : Type 0} (compare : K → K → Ordering) (o : IsOrder compare) (s : SkipList K)
    (is : IsSkipList compare s) (k : K) where
  abbrev pub found_prev : ℕ → ℕ
  found_prev = (find_greater_or_equal-Finds compare o s is k (λ level. 0)).0

  abbrev pub found : Option ℕ
  found = s.next (found_prev 0) 0

  pub find-found : find_greater_or_equal compare s k (λ level. 0) ≡ some (found, found_prev)
  find-found = (find_greater_or_equal-Finds compare o s is k (λ level. 0)).1

  pub found_prev-Stops : (l : ℕ) → l ≤ s.max_height - 1 → Stops compare s k l (found_prev l)
  found_prev-Stops = (find_greater_or_equal-Finds compare o s is k (λ level. 0)).2

  behind_prev :
      (z : ℕ)
      → IsNode compare s z
      → compare (s.key z) k ≢ Ordering.lt
      → (y : ℕ) × (found ≡ some y) × (compare (s.key y) (s.key z) ≢ Ordering.gt)
  unfolding flip
  behind_prev z node from =
      let (has, before, _) = found_prev-Stops 0 (omega arith) in
      is.next_least (found_prev 0) 0 z has node (is.node_height z node).0 (elim before [
        | inl head ↦ inl head
        | inr lt ↦ inr (
            Order.lt_le_trans compare o (s.key (found_prev 0)) k (s.key z) lt
              (ground (arith, o.flipped k (s.key z))))
      ])

  pub found-none : found ≡ none → (z : ℕ) → IsNode compare s z → compare (s.key z) k ≡ Ordering.lt
  found-none e z node = ground (arith, behind_prev z node)

  pub found-IsNode :
      (y : ℕ) → found ≡ some y → IsNode compare s y × (compare (s.key y) k ≢ Ordering.lt)
  found-IsNode y e =
      let (has, _, stop) = found_prev-Stops 0 (omega arith) in
      ((is.next_later (found_prev 0) 0 y has e).0, stop y e)

  pub found-first :
      (y z : ℕ)
      → found ≡ some y
      → IsNode compare s z
      → compare (s.key z) k ≢ Ordering.lt
      → compare (s.key y) (s.key z) ≢ Ordering.gt
  found-first y z e node from = ground (arith, behind_prev z node from)

  -- Seek stops at the node that was found, and Contains looks at it.
  pub seek-found : seek compare s k ≡ some (elim found [ none ↦ none | some n ↦ some (s.key n) ])
  unfolding seek
  seek-found = rw find-found refl

  pub contains-found : contains compare s k ≡ some (is_equal compare s k found)
  unfolding contains
  contains-found = rw find-found refl

  is_equal-found :
      is_equal compare s k found ≡ true
      → (a : ℕ) × IsNode compare s a × (compare k (s.key a) ≡ Ordering.eq)
  unfolding is_equal
  is_equal-found h = elim (Option-cases found) [
    | inl nothing ↦ ground arith
    | inr (y, e) ↦ (y, (found-IsNode y e).0, ground arith)
  ]

  pub not_found :
      is_equal compare s k found ≡ false
      → (a : ℕ) → IsNode compare s a
      → compare (s.key a) k ≢ Ordering.eq
  unfolding is_equal flip
  not_found h a node same =
      let (y, e, le) = behind_prev a node (ground arith) in
      ground (arith, found-IsNode y e, o.flipped (s.key y) k, o.le_trans (s.key y) (s.key a) k)

  -- Contains ends with an answer, in a list of its shape and with a comparison that is an order: it is
  -- true, and a key of the list compares equal, or it is false, and no key of the list does.
  pub contains_iff :
      ((contains compare s k ≡ some true)
        × (a : ℕ) × IsNode compare s a
        × (compare k (s.key a) ≡ Ordering.eq))
      ⊎ ((contains compare s k ≡ some false)
          × ((a : ℕ) → IsNode compare s a → compare k (s.key a) ≢ Ordering.eq))
  unfolding flip
  contains_iff = elim (Bool-cases (is_equal compare s k found)) [
    | inl equal ↦
        let (a, node, same) = is_equal-found equal in
        inl (contains-found ∙ ap some equal, a, node, same)
    | inr other ↦ inr (
      contains-found ∙ ap some other,
      (λ a node same. not_found other a node (ground (arith, o.flipped k (s.key a)))),
    )
  ]
