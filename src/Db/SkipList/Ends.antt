-- ===== src/Db/SkipList/Ends.antt =====
-- FindLast, and an iterator's moves to the first and the last node.
use quas_db.Base.{
  ℕ, zero, suc, ◌+◌, ◌-◌, ◌<◌, ◌≡◌, ◌≢◌, ◌⊎◌, inl, inr, refl, ap, ◌∙◌, ◌==◌, Bool-cases,
  if◌then◌else◌, Option, none, some, Option-cases, ◌>>=◌, arith,
}
use quas_db.Util.Order.{Ordering, IsOrder, flip}
use quas_db.Db.SkipList.{SkipList}
use quas_db.Db.SkipList.Shape.{IsNode, IsSkipList}
use quas_db.Db.SkipList.Less.{is_past, find_less_loop, find_less_than, find_less_than-last}

module _ {K : Type 0} where
  unfoldable pub find_last_loop : (fuel : ℕ) → SkipList K → (x level : ℕ) → Option ℕ
  find_last_loop zero s x level = none
  find_last_loop (suc fuel) s x level =
      let down = find_last_loop fuel s x (level - 1) in
      elim (s.next x level) [
        | none ↦ if level == 0 then some x else down
        | some next ↦ find_last_loop fuel s next level
      ]

  unfoldable pub find_last : SkipList K → Option ℕ
  find_last s = find_last_loop (s.max_height + s.allocated) s 0 (s.max_height - 1)

  unfoldable pub seek_to_last_node : SkipList K → Option (Option ℕ)
  seek_to_last_node s = do x ← find_last s; some (if x == 0 then none else some x)

  abbrev pub seek_to_first_node : SkipList K → Option ℕ
  seek_to_first_node s = s.next 0 0

  -- A key behind all others.
  abbrev topped : (K → K → Ordering) → Option K → Option K → Ordering
  topped compare none none = Ordering.eq
  topped compare none (some b) = Ordering.gt
  topped compare (some a) none = Ordering.lt
  topped compare (some a) (some b) = compare a b

  topped-IsOrder : (compare : K → K → Ordering) → IsOrder compare → IsOrder (topped compare)
  unfolding flip
  topped-IsOrder compare o = record { flipped = flips; le_trans = trans }
    where
      flips : (a b : Option K) → topped compare b a ≡ flip (topped compare a b)
      flips none none = refl
      flips none (some b) = refl
      flips (some a) none = refl
      flips (some a) (some b) = o.flipped a b

      trans :
          (a b c : Option K)
          → topped compare a b ≢ Ordering.gt
          → topped compare b c ≢ Ordering.gt
          → topped compare a c ≢ Ordering.gt
      trans none none none h k = h
      trans none none (some c) h k = k
      trans none (some b) c h k = absurd (h refl)
      trans (some a) none none h k = h
      trans (some a) none (some c) h k = absurd (k refl)
      trans (some a) (some b) none h k = k
      trans (some a) (some b) (some c) h k = o.le_trans a b c h k

  abbrev lifted : SkipList K → SkipList (Option K)
  lifted s = record {
    key = λ a. some (s.key a);
    height = s.height;
    next = s.next;
    allocated = s.allocated;
    max_height = s.max_height;
    rnd = s.rnd;
  }

  lifted-IsSkipList :
      (compare : K → K → Ordering) (s : SkipList K)
      → IsSkipList compare s
      → IsSkipList (topped compare) (lifted s)
  lifted-IsSkipList compare s is = record {
    has_head = is.has_head;
    head_height = is.head_height;
    some_level = is.some_level;
    few_levels = is.few_levels;
    node_height = is.node_height;
    next_later = is.next_later;
    next_least = is.next_least;
    distinct = is.distinct;
  }

  find_last_loop-find_less_loop :
      (compare : K → K → Ordering) (fuel : ℕ) (s : SkipList K) (x level : ℕ)
      → find_last_loop fuel s x level ≡ find_less_loop (topped compare) fuel (lifted s) none x level
  unfolding find_last_loop find_less_loop is_past
  find_last_loop-find_less_loop compare zero s x level = refl
  find_last_loop-find_less_loop compare (suc fuel) s x level =
      elim (Option-cases (s.next x level)) [
        | inl nothing ↦
            rw (find_last_loop, nothing)
              (ap (λ (d : Option ℕ). if level == 0 then some x else d)
                (find_last_loop-find_less_loop compare fuel s x (level - 1)))
        | inr (y, e) ↦ rw (find_last_loop, e) (find_last_loop-find_less_loop compare fuel s y level)
      ]

  module _ (compare : K → K → Ordering) (o : IsOrder compare) (s : SkipList K)
      (is : IsSkipList compare s) where
    -- FindLast ends at the last node in the order of the keys, and at the head where there is none.
    -- The list has its shape, and the comparison is an order.
    pub find_last-last :
        (x : ℕ) × (find_last s ≡ some x)
        × (x < s.allocated)
        × ((z : ℕ) → IsNode compare s z → (x ≢ 0) × (compare (s.key z) (s.key x) ≢ Ordering.gt))
    unfolding find_last find_less_than
    find_last-last =
        let (x, e, low, before, last) =
          find_less_than-last (topped compare) (topped-IsOrder compare o) (lifted s)
            (lifted-IsSkipList compare s is) none in
        (
          x,
          find_last_loop-find_less_loop compare (s.max_height + s.allocated) s 0 (s.max_height - 1)
              ∙ e,
          low,
          λ z node. last z node refl,
        )

    -- SeekToLast ends at the last node in the order of the keys, or at none where the list has none.
    -- The list has its shape, and the comparison is an order.
    pub seek_to_last_node-last :
        ((seek_to_last_node s ≡ some none) × ((z : ℕ) → IsNode compare s z → ⊥))
        ⊎ ((x : ℕ) × (seek_to_last_node s ≡ some (some x))
            × IsNode compare s x
            × ((z : ℕ) → IsNode compare s z → compare (s.key z) (s.key x) ≢ Ordering.gt))
    unfolding seek_to_last_node
    seek_to_last_node-last =
        let (x, e, low, last) = find_last-last in
        elim (Bool-cases (x == 0)) [
          | inl at_head ↦
              let head : x ≡ 0 = ground arith in
              inl (rw (e, at_head) refl, λ z n. (last z n).0 head)
          | inr at_node ↦ inr (x, rw (e, at_node) refl, (ground arith, low), λ z n. (last z n).1)
        ]

    pub seek_to_first_node-first :
        (z : ℕ)
        → IsNode compare s z
        → (y : ℕ) × (seek_to_first_node s ≡ some y) × (compare (s.key y) (s.key z) ≢ Ordering.gt)
    seek_to_first_node-first z node =
        is.next_least 0 0 z (is.has_head, omega (arith, is.head_height)) node
          (is.node_height z node).0 (inl refl)
