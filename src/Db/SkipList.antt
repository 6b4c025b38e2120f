-- ===== src/Db/SkipList.antt =====
-- kv/db/skiplist.h: the nodes, their links on each level, the search and the insertion. A pointer to a
-- node is its address, `none` is nullptr, and the head has address 0.
pub mod Shape
pub mod Find
pub mod Links
pub mod Grow
pub mod Insert
pub mod Seek
pub mod Less
pub mod Ends
pub mod Set
use quas_db.Base.{
  ℕ, zero, suc, ◌+◌, ◌-◌, ◌%◌, Bool, true, false, not, ◌&&◌, ltb, ◌==◌, if◌then◌else◌, Option, none,
  some, ◌>>=◌,
}
use quas_db.Util.Order.{Ordering, is_lt, is_eq}
use quas_db.Util.Random.{random_seed, random_next}

abbrev pub max_levels : ℕ
max_levels = 12

-- `height` is the length of a node's array of links.
pub record SkipList (K : Type 0) : Type 0 where
  pub key : ℕ → K
  pub height : ℕ → ℕ
  pub next : ℕ → ℕ → Option ℕ
  pub allocated : ℕ
  pub max_height : ℕ
  pub rnd : ℕ

-- A store at an address.
abbrev pub at {ℓ} : {A : Type ℓ} → ℕ → A → (ℕ → A) → ℕ → A
at a v f b = if b == a then v else f b

-- RandomHeight from the height so far, and the generator after it.
unfoldable pub random_height_loop : (rounds : ℕ) → ℕ → ℕ → ℕ × ℕ
random_height_loop zero height rnd = (height, rnd)
random_height_loop (suc rounds) height rnd =
    let drawn = random_next rnd in
    let more = random_height_loop rounds (height + 1) drawn in
    if drawn % 4 == 0 then more else (height, drawn)

unfoldable pub random_height : ℕ → ℕ × ℕ
random_height rnd = random_height_loop (max_levels - 1) 1 rnd

-- for (i = from; i < from + count; i++) prev[i] = head_
unfoldable pub raise_prev : (count from : ℕ) → (ℕ → ℕ) → ℕ → ℕ
raise_prev zero from prev = prev
raise_prev (suc count) from prev = raise_prev count (from + 1) (at from 0 prev)

module _ {K : Type 0} where
  -- The constructor; the head holds any key.
  unfoldable pub new_list : K → SkipList K
  new_list any_key = record {
    key = λ a. any_key;
    height = λ a. max_levels;
    next = λ a level. none;
    allocated = 1;
    max_height = 1;
    rnd = random_seed 0xdeadbeef;
  }

  unfoldable pub new_node : SkipList K → K → ℕ → SkipList K
  new_node s k h = record s {
    key = at s.allocated k s.key;
    height = at s.allocated h s.height;
    allocated = s.allocated + 1;
  }

  unfoldable pub set_next : SkipList K → ℕ → ℕ → Option ℕ → SkipList K
  set_next s x level link = record s { next = at x (at level link (s.next x)) s.next }

  -- for (i = from; i < from + count; i++): the links of level i around the new node.
  unfoldable pub link_levels : (count from : ℕ) → (ℕ → ℕ) → ℕ → SkipList K → SkipList K
  link_levels zero from prev x s = s
  link_levels (suc count) from prev x s =
      let forward = set_next s x from (s.next (prev from) from) in
      link_levels count (from + 1) prev x (set_next forward (prev from) from (some x))

  -- Insert behind its assertion: the nodes in `prev` are given.
  unfoldable pub insert_behind : SkipList K → K → (ℕ → ℕ) → SkipList K
  insert_behind s k prev =
      let (height, drawn) = random_height s.rnd in
      let raised = if ltb s.max_height height then height else s.max_height in
      let x = s.allocated in
      link_levels height 0 (raise_prev (height - s.max_height) s.max_height prev) x
        (new_node (record s { max_height = raised; rnd = drawn }) k height)

  module _ (compare : K → K → Ordering) where
    unfoldable pub key_is_after_node : SkipList K → K → Option ℕ → Bool
    key_is_after_node s k none = false
    key_is_after_node s k (some n) = is_lt (compare (s.key n) k)

    -- The loop of FindGreaterOrEqual, and what it stores in `prev`.
    unfoldable pub find_loop :
        (fuel : ℕ) → SkipList K → K → (x level : ℕ) → (ℕ → ℕ) → Option (Option ℕ × (ℕ → ℕ))
    find_loop zero s k x level prev = none
    find_loop (suc fuel) s k x level prev =
        let forward = s.next x level >>= λ y. find_loop fuel s k y level prev in
        let down = find_loop fuel s k x (level - 1) (at level x prev) in
        if key_is_after_node s k (s.next x level)
        then forward
        else if level == 0
        then some (s.next x level, at level x prev)
        else down

    -- Each round goes down a level or on to a later node.
    unfoldable pub find_greater_or_equal : SkipList K → K → (ℕ → ℕ) → Option (Option ℕ × (ℕ → ℕ))
    find_greater_or_equal s k prev =
        find_loop (s.max_height + s.allocated) s k 0 (s.max_height - 1) prev

    unfoldable pub is_equal : SkipList K → K → Option ℕ → Bool
    is_equal s k none = false
    is_equal s k (some x) = is_eq (compare k (s.key x))

    -- `none` where the assertion fails, that no key compares equal.
    unfoldable pub insert : SkipList K → K → Option (SkipList K)
    insert s k = do
      (x, prev) ← find_greater_or_equal s k (λ level. 0)
      if is_equal s k x then none else some (insert_behind s k prev)

    unfoldable pub contains : SkipList K → K → Option Bool
    contains s k = do (x, prev) ← find_greater_or_equal s k (λ level. 0); some (is_equal s k x)

    -- Seek, then Valid and key.
    unfoldable pub seek : SkipList K → K → Option (Option K)
    seek s k = do
      (x, prev) ← find_greater_or_equal s k (λ level. 0)
      some (elim x [ none ↦ none | some n ↦ some (s.key n) ])
