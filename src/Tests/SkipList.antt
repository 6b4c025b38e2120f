-- ===== src/Tests/SkipList.antt =====
-- kv/db/skiplist.h and kv/util/random.h at concrete lists.
use quas_db.Base.{
  ℕ, ◌-◌, ◌≡◌, ◌⊎◌, ◌↔◌, refl, true, false, Option, some, ◌>>=◌, List, [], arith, ◌≢◌, none,
}
use quas_db.Util.Order.{Ordering}
use quas_db.Util.Slice.{slice_compare}
use quas_db.Util.Slice.Lex.{slice_compare-IsOrder}
use quas_db.Util.Status.{bytes}
use quas_db.Util.Random.{modulus, random_next}
use quas_db.Db.OrderedSet.{IsOrderedSet}
use quas_db.Db.SkipList.{SkipList, new_list, insert, contains, seek, find_greater_or_equal}
use quas_db.Db.SkipList.Shape.{IsNode, HasKey, IsSkipList}
use quas_db.Db.SkipList.Find.{Finds, find_greater_or_equal-Finds}
use quas_db.Db.SkipList.Seek.{contains_iff}
use quas_db.Db.SkipList.Less.{prev_node, prev_node-last}
use quas_db.Db.SkipList.Ends.{seek_to_last_node, seek_to_last_node-last}
use quas_db.Db.SkipList.Insert.{IsFresh, added, added-Grown, added-IsSkipList, insert-IsSkipList}
use quas_db.Db.SkipList.Set.{Holds, skip_list, new_list-IsSkipList, skip_list-IsOrderedSet}

-- Two keys go in, and one is looked for.
abbrev two_keys : Option (SkipList (List ℕ))
two_keys = do s ← insert slice_compare (new_list []) (bytes "b"); insert slice_compare s (bytes "a")

two_keys_found :
    ((two_keys >>= λ s. contains slice_compare s (bytes "a")) ≡ some true)
    × ((two_keys >>= λ s. contains slice_compare s (bytes "c")) ≡ some false)
    × ((two_keys >>= λ s. seek slice_compare s (bytes "aa")) ≡ some (some (bytes "b")))
unfolding insert find_greater_or_equal quas_db.Db.SkipList.find_loop new_list
    quas_db.Db.SkipList.key_is_after_node quas_db.Db.SkipList.is_equal
    quas_db.Db.SkipList.insert_behind quas_db.Db.SkipList.link_levels
    quas_db.Db.SkipList.random_height quas_db.Db.SkipList.random_height_loop random_next
    quas_db.Util.Random.random_seed quas_db.Db.SkipList.set_next quas_db.Db.SkipList.new_node
    quas_db.Db.SkipList.raise_prev slice_compare contains seek quas_db.Util.Slice.memcmp
two_keys_found = (refl, refl, refl)

-- The list with the key "b".
empty-IsSkipList : IsSkipList slice_compare (new_list [])
empty-IsSkipList = new_list-IsSkipList slice_compare slice_compare-IsOrder []

abbrev one_key : SkipList (List ℕ)
one_key = added slice_compare slice_compare-IsOrder (new_list []) empty-IsSkipList (bytes "b")

fresh_b : IsFresh slice_compare slice_compare-IsOrder (new_list []) empty-IsSkipList (bytes "b")
unfolding new_list
fresh_b a (low, high) = absurd (omega arith)

one_key-IsSkipList : IsSkipList slice_compare one_key
one_key-IsSkipList =
    added-IsSkipList slice_compare slice_compare-IsOrder (new_list []) empty-IsSkipList (bytes "b")
      fresh_b

fresh_a : IsFresh slice_compare slice_compare-IsOrder one_key one_key-IsSkipList (bytes "a")
unfolding new_list slice_compare
fresh_a a (low, high) =
    let grown =
      added-Grown slice_compare slice_compare-IsOrder (new_list []) empty-IsSkipList (bytes "b") in
    let here : a ≡ 1 = omega (arith, grown.grown) in rw (here, grown.new_key) (λ e. cc)

insert-IsSkipList_example :
    (s' : SkipList (List ℕ)) × (insert slice_compare one_key (bytes "a") ≡ some s')
    × IsSkipList slice_compare s'
    × ((e : List ℕ)
        → HasKey slice_compare s' e ↔ ((e ≡ bytes "a") ⊎ HasKey slice_compare one_key e))
insert-IsSkipList_example =
    insert-IsSkipList slice_compare slice_compare-IsOrder one_key one_key-IsSkipList (bytes "a")
      fresh_a

contains_iff_example :
    ((contains slice_compare one_key (bytes "a") ≡ some true)
      × (a : ℕ) × IsNode slice_compare one_key a
      × (slice_compare (bytes "a") (one_key.key a) ≡ Ordering.eq))
    ⊎ ((contains slice_compare one_key (bytes "a") ≡ some false)
        × ((a : ℕ)
            → IsNode slice_compare one_key a
            → slice_compare (bytes "a") (one_key.key a) ≢ Ordering.eq))
contains_iff_example =
    contains_iff slice_compare slice_compare-IsOrder one_key one_key-IsSkipList (bytes "a")

find_greater_or_equal-Finds_example :
    Finds slice_compare slice_compare-IsOrder one_key one_key-IsSkipList
      (bytes "a")
      (one_key.max_height - 1)
      (λ l. 0)
      (find_greater_or_equal slice_compare one_key (bytes "a") (λ l. 0))
find_greater_or_equal-Finds_example =
    find_greater_or_equal-Finds slice_compare slice_compare-IsOrder one_key one_key-IsSkipList
      (bytes "a") (λ l. 0)

skip_list-IsOrderedSet_example :
    IsOrderedSet slice_compare
      (skip_list slice_compare slice_compare-IsOrder [])
      (Holds slice_compare slice_compare-IsOrder)
skip_list-IsOrderedSet_example = skip_list-IsOrderedSet slice_compare slice_compare-IsOrder []

prev_node-last_example :
    ((prev_node slice_compare one_key 1 ≡ some none)
      × ((z : ℕ)
          → IsNode slice_compare one_key z
          → slice_compare (one_key.key z) (one_key.key 1) ≢ Ordering.lt))
    ⊎ ((x : ℕ) × (prev_node slice_compare one_key 1 ≡ some (some x))
        × IsNode slice_compare one_key x
        × (slice_compare (one_key.key x) (one_key.key 1) ≡ Ordering.lt)
        × ((z : ℕ)
            → IsNode slice_compare one_key z
            → slice_compare (one_key.key z) (one_key.key 1) ≡ Ordering.lt
            → slice_compare (one_key.key z) (one_key.key x) ≢ Ordering.gt))
prev_node-last_example =
    prev_node-last slice_compare slice_compare-IsOrder one_key one_key-IsSkipList 1

seek_to_last_node-last_example :
    ((seek_to_last_node one_key ≡ some none) × ((z : ℕ) → IsNode slice_compare one_key z → ⊥))
    ⊎ ((x : ℕ) × (seek_to_last_node one_key ≡ some (some x))
        × IsNode slice_compare one_key x
        × ((z : ℕ)
            → IsNode slice_compare one_key z
            → slice_compare (one_key.key z) (one_key.key x) ≢ Ordering.gt))
seek_to_last_node-last_example =
    seek_to_last_node-last slice_compare slice_compare-IsOrder one_key one_key-IsSkipList
