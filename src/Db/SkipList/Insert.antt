-- ===== src/Db/SkipList/Insert.antt =====
-- Insert keeps the shape of the list and adds the key, and nothing else.
use quas_db.Base.{
  ℕ, ◌-◌, ◌≤◌, ◌<◌, ◌≡◌, ◌≢◌, ◌⊎◌, ◌↔◌, inl, inr, refl, sym, ap, ◌∙◌, false, ltb, ◌==◌, Bool-cases,
  if◌then◌else◌, none, some, Option-cases, arith,
}
use quas_db.Util.Order.{Ordering, IsOrder, flip}
use quas_db.Db.SkipList.{
  SkipList, random_height, raise_prev, new_node, insert_behind, insert, is_equal,
}
use quas_db.Db.SkipList.Shape.{IsNode, HasLevel, HasKey, IsSkipList, Stops}
use quas_db.Db.SkipList.Find.{at-same, at-other}
use quas_db.Db.SkipList.Seek.{found, found_prev, find-found, found_prev-Stops, found-IsNode}
use quas_db.Db.SkipList.Links.{
  Linked, link_levels-Linked, random_height_fits, raise_prev_below, raise_prev_head,
}
use quas_db.Db.SkipList.Grow.{Grown, grown-IsSkipList}

module _ {K : Type 0} (compare : K → K → Ordering) (s : SkipList K) (k : K) (prev : ℕ → ℕ) where
  abbrev levels : ℕ
  levels = (random_height s.rnd).0

  abbrev all_prev : ℕ → ℕ
  all_prev = raise_prev (levels - s.max_height) s.max_height prev

  -- The node of the new levels is the head.
  all_prev-Stops :
      IsSkipList compare s
      → ((l : ℕ) → l ≤ s.max_height - 1 → Stops compare s k l (prev l))
      → (l : ℕ) → l < levels
      → Stops compare s k l (all_prev l)
  all_prev-Stops is stops l b = elim (Bool-cases (ltb l s.max_height)) [
    | inl below ↦
        rw (raise_prev_below (levels - s.max_height) s.max_height l prev (ground arith))
          (stops l (ground arith))
    | inr above ↦
        rw
          (raise_prev_head (levels - s.max_height) s.max_height l prev (ground arith)
            (ground arith))
          (
            head_has,
            inl refl,
            λ y e _.
                (let (node, tall, _) = is.next_later 0 l y head_has e in
                  ground (arith, is.node_height y node)),
          )
  ]
    where
      head_has : HasLevel compare s 0 l
      head_has = (is.has_head, omega (arith, is.head_height, (random_height_fits s.rnd).1))

  insert_behind-Grown :
      IsSkipList compare s
      → ((l : ℕ) → l < levels → all_prev l < s.allocated)
      → Grown s (insert_behind s k prev) k levels all_prev
  unfolding insert_behind new_node
  insert_behind-Grown is low =
      let s0 : SkipList K =
        new_node
          (record s {
            max_height = if ltb s.max_height levels then levels else s.max_height;
            rnd = (random_height s.rnd).1;
          })
          k levels in
      let links : Linked s0 (insert_behind s k prev) all_prev s.allocated 0 levels =
        link_levels-Linked levels 0 all_prev s.allocated s0
          (λ l a b e. omega (arith, low l (omega arith), e)) in
      let s' = insert_behind s k prev in
      record {
        grown = links.same_allocated;
        new_key = ap (λ (f : ℕ → K). f s.allocated) links.same_key ∙ at-same s.allocated k s.key;
        old_key = λ a b.
            ap (λ (f : ℕ → K). f a) links.same_key ∙ at-other a s.allocated k s.key (ground arith);
        new_height =
            ap (λ (f : ℕ → ℕ). f s.allocated) links.same_height
            ∙ at-same s.allocated levels s.height;
        old_height = λ a b.
            ap (λ (f : ℕ → ℕ). f a) links.same_height
            ∙ at-other a s.allocated levels s.height (ground arith);
        fits = ((random_height_fits s.rnd).0, rw links.same_max_height (ground arith));
        more_levels =
            rw links.same_max_height
              (ground arith, ground (arith, random_height_fits s.rnd, is.few_levels));
        new_link = λ l b. links.new_link l (omega arith) (omega arith);
        prev_link = λ l b. links.prev_link l (omega arith) (omega arith);
        old_link = λ q l b free.
            links.old_link q l (λ c d. ((λ e. omega (arith, b, e)), free (omega arith)));
      }

-- The key is equal to none of the list.
module _ {K : Type 0} (compare : K → K → Ordering) (o : IsOrder compare) (s : SkipList K)
    (is : IsSkipList compare s) (k : K) where
  abbrev pub IsFresh : Type 0
  IsFresh = (a : ℕ) → IsNode compare s a → compare (s.key a) k ≢ Ordering.eq

  abbrev pub added : SkipList K
  added = insert_behind s k (found_prev compare o s is k)

  pub added-Grown :
      Grown s added k
        (levels compare s k (found_prev compare o s is k))
        (all_prev compare s k (found_prev compare o s is k))
  added-Grown = insert_behind-Grown compare s k (found_prev compare o s is k) is (λ l b.
      (all_prev-Stops compare s k (found_prev compare o s is k) is
        (found_prev-Stops compare o s is k) l b).0.0)

  pub added-IsSkipList : IsFresh → IsSkipList compare added
  added-IsSkipList fresh =
      grown-IsSkipList compare o s added k (levels compare s k (found_prev compare o s is k))
        (all_prev compare s k (found_prev compare o s is k)) is fresh
        (all_prev-Stops compare s k (found_prev compare o s is k) is
          (found_prev-Stops compare o s is k))
        added-Grown

  pub insert-found :
      insert compare s k
      ≡ (if is_equal compare s k (found compare o s is k) then none else some added)
  unfolding insert
  insert-found = rw (find-found compare o s is k) refl

  none_equal : IsFresh → is_equal compare s k (found compare o s is k) ≡ false
  unfolding flip is_equal
  none_equal fresh = elim (Option-cases (found compare o s is k)) [
    | inl nothing ↦ rw nothing refl
    | inr (y, e) ↦
        rw e (ground (arith, fresh y (found-IsNode compare o s is k y e).0, o.flipped k (s.key y)))
  ]

  keys-added : (e : K) → HasKey compare added e ↔ ((e ≡ k) ⊎ HasKey compare s e)
  keys-added e = (to, from)
    where
      to : HasKey compare added e → (e ≡ k) ⊎ HasKey compare s e
      to (a, (low, high), same) = elim (Bool-cases (a == s.allocated)) [
        | inl new ↦
            let here : a ≡ s.allocated = ground arith in
            inl (same ∙ (ap added.key here ∙ added-Grown.new_key))
        | inr old ↦
            let b : a < s.allocated = ground (arith, added-Grown.grown) in
            inr (a, (low, b), same ∙ added-Grown.old_key a b)
      ]

      from : (e ≡ k) ⊎ HasKey compare s e → HasKey compare added e
      from (inl new) = (
        s.allocated,
        (is.has_head, omega (arith, added-Grown.grown)),
        new ∙ sym added-Grown.new_key,
      )
      from (inr (a, node, same)) =
          (a, (node.0, omega (arith, added-Grown.grown)), same ∙ sym (added-Grown.old_key a node.1))

  pub insert-added : IsFresh → insert compare s k ≡ some added
  insert-added fresh = insert-found ∙ rw (none_equal fresh) refl

  -- Insert of a key that compares equal to no key of the list ends with a list of the same shape,
  -- which has the keys of the old one and this key. The list has its shape, and the comparison is an
  -- order.
  pub insert-IsSkipList :
      IsFresh
      → (s' : SkipList K) × (insert compare s k ≡ some s')
        × IsSkipList compare s'
        × ((e : K) → HasKey compare s' e ↔ ((e ≡ k) ⊎ HasKey compare s e))
  insert-IsSkipList fresh = (added, insert-added fresh, added-IsSkipList fresh, keys-added)
