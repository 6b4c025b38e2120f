-- ===== src/Db/SkipList/Find.antt =====
-- FindGreaterOrEqual ends, at the last node before the key on each level.
use quas_db.Base.{
  ℕ, zero, suc, ◌+◌, ◌-◌, ◌≤◌, ◌<◌, ◌≡◌, inl, inr, refl, ◌∙◌, Bool, true, false, ◌||◌, ◌==◌,
  Bool-cases, if◌then◌else◌, Option, some, Option-cases, arith,
}
use quas_db.Util.Order
use quas_db.Util.Order.{Ordering, IsOrder, is_lt, flip}
use quas_db.Db.SkipList.{SkipList, at, key_is_after_node, find_loop, find_greater_or_equal}
use quas_db.Db.SkipList.Shape.{IsNode, Before, HasLevel, IsSkipList, Stops}

-- How many numbers below `n` pass the test.
unfoldable pub count : (ℕ → Bool) → ℕ → ℕ
count test zero = 0
count test (suc n) = (if test n then 1 else 0) + count test n

count_le : (test : ℕ → Bool) (n : ℕ) → count test n ≤ n
unfolding count
count_le test zero = omega arith
count_le test (suc n) = ground (arith, count_le test n)

count_mono :
    (fewer more : ℕ → Bool) (n : ℕ)
    → ((a : ℕ) → a < n → fewer a ≡ true → more a ≡ true)
    → count fewer n ≤ count more n
unfolding count
count_mono fewer more zero h = omega arith
count_mono fewer more (suc n) h =
    ground (arith, count_mono fewer more n (λ a k. h a (omega arith)), h n)

count_lt :
    (fewer more : ℕ → Bool) (n j : ℕ)
    → ((a : ℕ) → a < n → fewer a ≡ true → more a ≡ true)
    → j < n
    → fewer j ≡ false
    → more j ≡ true
    → count fewer n < count more n
unfolding count
count_lt fewer more zero j h k f m = absurd (omega arith)
count_lt fewer more (suc n) j h k f m = elim (Bool-cases (j == n)) [
  | inl last ↦
      let same : j ≡ n = ground arith in
      ground (arith, count_mono fewer more n (λ a b. h a (omega arith)), rw same at f, rw same at m)
  | inr before ↦
      ground (arith, count_lt fewer more n j (λ a b. h a (omega arith)) (ground arith) f m, h n)
]

pub at-same {ℓ} : {A : Type ℓ} (a : ℕ) (v : A) (f : ℕ → A) → at a v f a ≡ v
at-same a v f = let same : (a == a) ≡ true = ground arith in rw same refl

pub at-other {ℓ} : {A : Type ℓ} (b a : ℕ) (v : A) (f : ℕ → A) → (b == a) ≡ false → at a v f b ≡ f b
at-other b a v f other = rw other refl

module _ {K : Type 0} (compare : K → K → Ordering) (o : IsOrder compare) (s : SkipList K)
    (is : IsSkipList compare s) where
  abbrev is_before : ℕ → ℕ → Bool
  is_before x a = (x == 0) || is_lt (compare (s.key x) (s.key a))

  abbrev later : ℕ → ℕ
  later x = count (is_before x) s.allocated

  is_before_sound : (x a : ℕ) → is_before x a ≡ true → Before compare s x (s.key a)
  is_before_sound x a h = ground arith

  is_before_complete : (x a : ℕ) → Before compare s x (s.key a) → is_before x a ≡ true
  is_before_complete x a h = ground arith

  later_lt : (x y : ℕ) → IsNode compare s y → Before compare s x (s.key y) → later y < later x
  unfolding flip
  later_lt x y n b =
      count_lt (is_before y) (is_before x) s.allocated y
        (λ a k h. is_before_complete x a (further a (is_before_sound y a h))) n.1
        (ground (arith, Order.compare_refl compare o (s.key y))) (is_before_complete x y b)
    where
      further : (a : ℕ) → Before compare s y (s.key a) → Before compare s x (s.key a)
      further a h = elim b [
        | inl head ↦ inl head
        | inr xy ↦ elim h [
          | inl head ↦ absurd (omega (arith, n.0))
          | inr ya ↦
              inr (Order.lt_le_trans compare o (s.key x) (s.key y) (s.key a) xy (ground arith))
        ]
      ]

  module _ (k : K) where
    -- The rounds of the loop, one lemma for each.
    find_loop-forward :
        (fuel x level y : ℕ) (prev : ℕ → ℕ)
        → s.next x level ≡ some y
        → compare (s.key y) k ≡ Ordering.lt
        → find_loop compare (suc fuel) s k x level prev ≡ find_loop compare fuel s k y level prev
    unfolding find_loop key_is_after_node
    find_loop-forward fuel x level y prev e b = rw (e, b) refl

    find_loop-down :
        (fuel x level : ℕ) (prev : ℕ → ℕ)
        → key_is_after_node compare s k (s.next x level) ≡ false
        → (level == 0) ≡ false
        → find_loop compare (suc fuel) s k x level prev
          ≡ find_loop compare fuel s k x (level - 1) (at level x prev)
    unfolding find_loop
    find_loop-down fuel x level prev e z = rw (e, z) refl

    find_loop-stop :
        (fuel x : ℕ) (prev : ℕ → ℕ)
        → key_is_after_node compare s k (s.next x 0) ≡ false
        → find_loop compare (suc fuel) s k x 0 prev ≡ some (s.next x 0, at 0 x prev)
    unfolding find_loop
    find_loop-stop fuel x prev e = rw e refl

    Stops-here :
        (x l : ℕ)
        → HasLevel compare s x l
        → Before compare s x k
        → key_is_after_node compare s k (s.next x l) ≡ false
        → Stops compare s k l x
    unfolding key_is_after_node
    Stops-here x l has b e = (has, b, λ y f. ground arith)

    -- What the search from `x` on a level gives: the last nodes before the key, on this level and
    -- those below it.
    abbrev pub Finds : ℕ → (ℕ → ℕ) → Option (Option ℕ × (ℕ → ℕ)) → Type 0
    Finds level prev result =
        (prev' : ℕ → ℕ) × (result ≡ some (s.next (prev' 0) 0, prev'))
        × ((l : ℕ) → l ≤ level → Stops compare s k l (prev' l))
        × ((l : ℕ) → level < l → prev' l ≡ prev l)

    node_before :
        (x level : ℕ)
        → key_is_after_node compare s k (s.next x level) ≡ true
        → (y : ℕ) × (s.next x level ≡ some y) × (compare (s.key y) k ≡ Ordering.lt)
    unfolding key_is_after_node
    node_before x level after = elim (Option-cases (s.next x level)) [
      | inl nothing ↦ ground arith
      | inr (y, e) ↦ (y, e, ground arith)
    ]

    found_here :
        (fuel x : ℕ) (prev : ℕ → ℕ)
        → HasLevel compare s x 0
        → Before compare s x k
        → key_is_after_node compare s k (s.next x 0) ≡ false
        → Finds 0 prev (find_loop compare (suc fuel) s k x 0 prev)
    found_here fuel x prev has b e = (
      at 0 x prev,
      find_loop-stop fuel x prev e,
      λ l h. let bottom : l ≡ 0 = omega arith in rw bottom (Stops-here x 0 has b e),
      λ l h. at-other l 0 x prev (ground arith),
    )

    found_below :
        (level x : ℕ) (prev : ℕ → ℕ)
        → HasLevel compare s x level
        → Before compare s x k
        → key_is_after_node compare s k (s.next x level) ≡ false
        → (result : Option (Option ℕ × (ℕ → ℕ))) → 1 ≤ level
        → Finds (level - 1) (at level x prev) result
        → Finds level prev result
    found_below level x prev has b e result h (prev', same, stops, rest) = (
      prev',
      same,
      λ l below. elim (Bool-cases (l == level)) [
        | inl top ↦
            let same_level : l ≡ level = ground arith in
            rw (same_level, rest level (omega arith), at-same level x prev)
              (Stops-here x level has b e)
        | inr lower ↦ stops l (ground arith)
      ],
      λ l above. rest l (omega arith) ∙ at-other l level x prev (ground arith),
    )

    find_loop-Finds :
        (fuel x level : ℕ) (prev : ℕ → ℕ)
        → HasLevel compare s x level
        → Before compare s x k
        → later x + level < fuel
        → Finds level prev (find_loop compare fuel s k x level prev)
    find_loop-Finds zero x level prev has b enough = absurd (omega arith)
    find_loop-Finds (suc fuel) x level prev has b enough =
        elim (Bool-cases (key_is_after_node compare s k (s.next x level))) [
          | inl after ↦
              let (y, e, before_k) = node_before x level after in
              let (node, tall, x_before_y) = is.next_later x level y has e in
              rw (find_loop-forward fuel x level y prev e before_k) (
                find_loop-Finds fuel y level prev (node.1, tall) (inr before_k)
                  (omega (arith, later_lt x y node x_before_y)))
          | inr not_after ↦ elim (Bool-cases (level == 0)) [
            | inl bottom ↦
                let zero_level : level ≡ 0 = ground arith in
                rw zero_level
                  (found_here fuel x prev (rw zero_level at has) b (rw zero_level at not_after))
            | inr above ↦ rw (find_loop-down fuel x level prev not_after above) (
                found_below level x prev has b not_after
                  (find_loop compare fuel s k x (level - 1) (at level x prev)) (ground arith)
                  (find_loop-Finds fuel x (level - 1) (at level x prev) (has.0, ground arith) b
                    (ground arith)))
          ]
        ]

    -- FindGreaterOrEqual ends, and its fuel is enough: on each level of the list it stores the last
    -- node before the key, and it returns the node behind the one of level 0. The list has its shape,
    -- and the comparison is an order.
    pub find_greater_or_equal-Finds :
        (prev : ℕ → ℕ) → Finds (s.max_height - 1) prev (find_greater_or_equal compare s k prev)
    unfolding find_greater_or_equal
    find_greater_or_equal-Finds prev =
        find_loop-Finds (s.max_height + s.allocated) 0 (s.max_height - 1) prev
          (is.has_head, omega (arith, is.head_height, is.some_level, is.few_levels)) (inl refl)
          (omega (arith, count_le (is_before 0) s.allocated, is.some_level))
