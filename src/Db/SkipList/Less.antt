-- ===== src/Db/SkipList/Less.antt =====
-- FindLessThan, and the step back of an iterator that calls it.
use quas_db.Base.{
  ℕ, zero, suc, ◌+◌, ◌-◌, ◌<◌, ◌≡◌, ◌≢◌, ◌⊎◌, inl, inr, refl, sym, ap, ◌∙◌, Bool, true, not, ◌==◌,
  Bool-cases, if◌then◌else◌, Option, none, some, Option-cases, ◌>>=◌, arith,
}
use quas_db.Util.Order
use quas_db.Util.Order.{Ordering, IsOrder, is_lt, flip}
use quas_db.Db.SkipList.{SkipList, at, key_is_after_node, find_loop, find_greater_or_equal}
use quas_db.Db.SkipList.Shape.{IsNode, Before, IsSkipList, Stops}
use quas_db.Db.SkipList.Find.{at-same}
use quas_db.Db.SkipList.Seek.{found_prev, find-found, found_prev-Stops}

module _ {K : Type 0} (compare : K → K → Ordering) where
  -- next == nullptr || compare_(next->key, key) >= 0
  unfoldable pub is_past : SkipList K → K → Option ℕ → Bool
  is_past s k none = true
  is_past s k (some n) = not (is_lt (compare (s.key n) k))

  unfoldable pub find_less_loop : (fuel : ℕ) → SkipList K → K → (x level : ℕ) → Option ℕ
  find_less_loop zero s k x level = none
  find_less_loop (suc fuel) s k x level =
      let forward = s.next x level >>= λ y. find_less_loop fuel s k y level in
      let down = find_less_loop fuel s k x (level - 1) in
      if is_past s k (s.next x level) then (if level == 0 then some x else down) else forward

  unfoldable pub find_less_than : SkipList K → K → Option ℕ
  find_less_than s k = find_less_loop (s.max_height + s.allocated) s k 0 (s.max_height - 1)

  -- Prev of an iterator on a node; the outer `none` where the fuel ran out.
  unfoldable pub prev_node : SkipList K → ℕ → Option (Option ℕ)
  prev_node s node = do x ← find_less_than s (s.key node); some (if x == 0 then none else some x)

  is_past-after :
      (s : SkipList K) (k : K) (link : Option ℕ)
      → is_past s k link ≡ not (key_is_after_node compare s k link)
  unfolding is_past key_is_after_node
  is_past-after s k none = refl
  is_past-after s k (some n) = refl

  -- Both searches take the same way.
  find_less_loop-find_loop :
      (fuel : ℕ) (s : SkipList K) (k : K) (x level : ℕ) (prev : ℕ → ℕ)
      → find_less_loop fuel s k x level
        ≡ (find_loop compare fuel s k x level prev >>= λ (link, stored). some (stored 0))
  unfolding find_loop find_less_loop
  find_less_loop-find_loop zero s k x level prev = refl
  find_less_loop-find_loop (suc fuel) s k x level prev =
      elim (Bool-cases (key_is_after_node compare s k (s.next x level))) [
        | inl after ↦
            rw (is_past-after s k (s.next x level), after)
              (elim (Option-cases (s.next x level)) [
                | inl nothing ↦ rw nothing refl
                | inr (y, e) ↦ rw e (find_less_loop-find_loop fuel s k y level prev)
              ])
        | inr past ↦
            rw (is_past-after s k (s.next x level), past)
              (elim (Bool-cases (level == 0)) [
                | inl bottom ↦
                    let low : level ≡ 0 = ground arith in
                    rw bottom (ap some (sym (at-same level x prev) ∙ ap (at level x prev) low))
                | inr above ↦
                    rw above (find_less_loop-find_loop fuel s k x (level - 1) (at level x prev))
              ])
      ]

  module _ (o : IsOrder compare) (s : SkipList K) (is : IsSkipList compare s) (k : K) where
    find_less_than-found : find_less_than s k ≡ some (found_prev compare o s is k 0)
    unfolding find_less_than find_greater_or_equal
    find_less_than-found =
        find_less_loop-find_loop (s.max_height + s.allocated) s k 0 (s.max_height - 1) (λ level. 0)
        ∙ ap (λ (r : Option (Option ℕ × (ℕ → ℕ))). r >>= λ (link, stored). some (stored 0))
            (find-found compare o s is k)

    -- FindLessThan ends at the last node whose key is before the one it is given, and at the head where
    -- there is none. The list has its shape, and the comparison is an order.
    pub find_less_than-last :
        (x : ℕ) × (find_less_than s k ≡ some x)
        × (x < s.allocated)
        × Before compare s x k
        × ((z : ℕ)
            → IsNode compare s z
            → compare (s.key z) k ≡ Ordering.lt
            → (x ≢ 0) × (compare (s.key z) (s.key x) ≢ Ordering.gt))
    unfolding flip
    find_less_than-last = (
      found_prev compare o s is k 0,
      find_less_than-found,
      last.0.0,
      last.1,
      λ z node below. (
        (λ head. passed z node below (inl head)),
        λ gt.
            passed z node below
              (inr (ground (arith, o.flipped (s.key z) (s.key (found_prev compare o s is k 0))))),
      ),
    )
      where
        last : Stops compare s k 0 (found_prev compare o s is k 0)
        last = found_prev-Stops compare o s is k 0 (omega arith)

        passed :
            (z : ℕ)
            → IsNode compare s z
            → compare (s.key z) k ≡ Ordering.lt
            → Before compare s (found_prev compare o s is k 0) (s.key z)
            → ⊥
        passed z node below before =
            let (y, e, le) =
              is.next_least (found_prev compare o s is k 0) 0 z last.0 node
                (is.node_height z node).0 before in
            last.2 y e (Order.le_lt_trans compare o (s.key y) (s.key z) k le below)

  -- Prev from a node ends at the node before it in the order of the keys, or at none, where no node of
  -- the list is before it. The list has its shape, and the comparison is an order.
  pub prev_node-last :
      (o : IsOrder compare) (s : SkipList K) (is : IsSkipList compare s) (node : ℕ)
      → ((prev_node s node ≡ some none)
          × ((z : ℕ) → IsNode compare s z → compare (s.key z) (s.key node) ≢ Ordering.lt))
        ⊎ ((x : ℕ) × (prev_node s node ≡ some (some x))
            × IsNode compare s x
            × (compare (s.key x) (s.key node) ≡ Ordering.lt)
            × ((z : ℕ)
                → IsNode compare s z
                → compare (s.key z) (s.key node) ≡ Ordering.lt
                → compare (s.key z) (s.key x) ≢ Ordering.gt))
  unfolding prev_node
  prev_node-last o s is node =
      let (x, e, low, before, last) = find_less_than-last o s is (s.key node) in
      elim (Bool-cases (x == 0)) [
        | inl at_head ↦
            let head : x ≡ 0 = ground arith in
            inl (rw (e, at_head) refl, λ z n lt. (last z n lt).0 head)
        | inr at_node ↦ inr (
          x,
          rw (e, at_node) refl,
          (ground arith, low),
          elim before [ inl head ↦ absurd (ground arith) | inr lt ↦ lt ],
          λ z n lt. (last z n lt).1,
        )
      ]
