-- ===== src/Db/SkipList/Set.antt =====
-- The skip list is an ordered set, as the memtable asks for.
use quas_db.Base.{
  ℕ, ◌≡◌, ◌⊎◌, inl, inr, refl, sym, ap, ◌∙◌, Bool-cases, Option, none, some, Option-cases, arith,
}
use mathlib.Core.Option.{some-injective, none-ne-some}
use quas_db.Util.Order.{Ordering, IsOrder}
use quas_db.Db.OrderedSet.{OrderedSet, IsOrderedSet}
use quas_db.Db.SkipList.{SkipList, new_list, insert, seek, is_equal}
use quas_db.Db.SkipList.Shape.{IsNode, HasKey, IsSkipList}
use quas_db.Db.SkipList.Seek.{found, seek-found, found-none, found-IsNode, found-first, not_found}
use quas_db.Db.SkipList.Insert.{added, insert-found, insert-IsSkipList, added-IsSkipList}

module _ {K : Type 0} (compare : K → K → Ordering) (o : IsOrder compare) where
  pub new_list-IsSkipList : (any_key : K) → IsSkipList compare (new_list any_key)
  unfolding new_list
  new_list-IsSkipList any_key = record {
    has_head = omega arith;
    head_height = refl;
    some_level = omega arith;
    few_levels = omega arith;
    node_height = λ a (low, high). absurd (omega arith);
    next_later = λ x l y has e. ground arith;
    next_least = λ x l z has (low, high) tall b. absurd (omega arith);
    distinct = λ a b (low, high) node e. absurd (omega arith);
  }

  no_node : (any_key : K) (a : ℕ) → IsNode compare (new_list any_key) a → ⊥
  unfolding new_list
  no_node any_key a (low, high) = omega arith

  -- What Insert leaves, its assertion kept.
  pub insert-kept :
      (s s' : SkipList K) (k : K)
      → IsSkipList compare s
      → insert compare s k ≡ some s'
      → IsSkipList compare s'
  insert-kept s s' k is e = elim (Bool-cases (is_equal compare s k (found compare o s is k))) [
    | inl equal ↦ absurd (none-ne-some s' (rw equal at (sym (insert-found compare o s is k) ∙ e)))
    | inr other ↦
        rw
          (some-injective (added compare o s is k) s'
            (rw other at (sym (insert-found compare o s is k) ∙ e)))
          at (added-IsSkipList compare o s is k (not_found compare o s is k other))
  ]

  -- A skip list with its shape; where the assertion of Insert fails, nothing is inserted.
  abbrev pub Shaped : Type 0
  Shaped = (s : SkipList K) × IsSkipList compare s

  abbrev pub Outcome : SkipList K → K → Type 0
  Outcome s k = (insert compare s k ≡ none) ⊎ ((s' : SkipList K) × (insert compare s k ≡ some s'))

  unfoldable pub shaped_by : (t : Shaped) (k : K) → Outcome t.0 k → Shaped
  shaped_by t k (inl fails) = t
  shaped_by t k (inr (s', e)) = (s', insert-kept t.0 s' k t.1 e)

  unfoldable pub skip_list : K → OrderedSet K Shaped
  skip_list any_key = record {
    empty = (new_list any_key, new_list-IsSkipList any_key);
    insert = λ t k. shaped_by t k (Option-cases (insert compare t.0 k));
    seek = λ t k. elim (seek compare t.0 k) [ none ↦ none | some result ↦ result ];
  }

  abbrev pub Holds : Shaped → K → Type 0
  Holds t e = HasKey compare t.0 e

  shaped_by-some :
      (t : Shaped) (k : K) (s' : SkipList K) (c : Outcome t.0 k)
      → insert compare t.0 k ≡ some s'
      → (shaped_by t k c).0 ≡ s'
  unfolding shaped_by
  shaped_by-some t k s' (inl fails) e = absurd (none-ne-some s' (sym fails ∙ e))
  shaped_by-some t k s' (inr (s'', e')) e = some-injective s'' s' (sym e' ∙ e)

  seek_key :
      (any_key : K) (t : Shaped) (k : K)
      → (skip_list any_key).seek t k
        ≡ (elim (found compare o t.0 t.1 k) [ none ↦ none | some n ↦ some (t.0.key n) ])
  unfolding skip_list
  seek_key any_key t k =
      ap (λ (r : Option (Option K)). elim r [ none ↦ none | some result ↦ result ])
        (seek-found compare o t.0 t.1 k)

  seek_some :
      (any_key : K) (t : Shaped) (k x : K)
      → (skip_list any_key).seek t k ≡ some x
      → (n : ℕ) × (found compare o t.0 t.1 k ≡ some n) × (t.0.key n ≡ x)
  seek_some any_key t k x e = elim (Option-cases (found compare o t.0 t.1 k)) [
    | inl nothing ↦ absurd (none-ne-some x (sym (seek_key any_key t k ∙ rw nothing refl) ∙ e))
    | inr (n, f) ↦ (n, f, some-injective (t.0.key n) x (sym (seek_key any_key t k ∙ rw f refl) ∙ e))
  ]

  seek_none :
      (any_key : K) (t : Shaped) (k : K)
      → (skip_list any_key).seek t k ≡ none
      → found compare o t.0 t.1 k ≡ none
  seek_none any_key t k e = elim (Option-cases (found compare o t.0 t.1 k)) [
    | inl nothing ↦ nothing
    | inr (n, f) ↦ absurd (none-ne-some (t.0.key n) (sym e ∙ (seek_key any_key t k ∙ rw f refl)))
  ]

  -- The skip list keeps the contract that the memtable relies on: a new list is empty, Insert of a key
  -- that compares equal to none adds this key and no other, and Seek gives the first key of the list
  -- that is not before the one it is given, and none where all are before it. The comparison is an
  -- order.
  pub skip_list-IsOrderedSet : (any_key : K) → IsOrderedSet compare (skip_list any_key) Holds
  unfolding skip_list
  skip_list-IsOrderedSet any_key = record {
    not_empty = λ k (a, node, same). no_node any_key a node;
    insert_holds = λ t k e fresh.
        let (s', done, _, keys) =
          insert-IsSkipList compare o t.0 t.1 k (λ a node. fresh (t.0.key a) (a, node, refl)) in
        rw (shaped_by-some t k s' (Option-cases (insert compare t.0 k)) done) (keys e);
    seek_none = λ t k e n h.
        let (a, node, same) = h in
        rw same (found-none compare o t.0 t.1 k (seek_none any_key t k n) a node);
    seek_holds = λ t k x e.
        let (n, f, same) = seek_some any_key t k x e in
        (n, (found-IsNode compare o t.0 t.1 k n f).0, sym same);
    seek_from = λ t k x e.
        let (n, f, same) = seek_some any_key t k x e in
        rw (sym same) (found-IsNode compare o t.0 t.1 k n f).1;
    seek_first = λ t k x e s h from.
        let (n, f, same) = seek_some any_key t k x s in
        let (a, node, key_a) = h in
        rw (sym same, key_a) (found-first compare o t.0 t.1 k n a f node (rw key_a at from));
  }
