-- ===== src/Db/SkipList/Grow.antt =====
-- A list that got a new node, linked behind the last nodes before its key, keeps its shape.
use quas_db.Base.{
  ℕ, zero, suc, ◌+◌, ◌≤◌, ◌<◌, ◌≡◌, ◌≢◌, ◌⊎◌, ◌↔◌, inl, inr, refl, sym, ap, ◌∙◌, ltb, ◌==◌,
  Bool-cases, some, arith,
}
use mathlib.Core.Option.{some-injective}
use quas_db.Util.Order
use quas_db.Util.Order.{Ordering, IsOrder, flip}
use quas_db.Db.SkipList.{SkipList, max_levels}
use quas_db.Db.SkipList.Shape.{IsNode, Before, HasLevel, IsSkipList, Stops}

-- `n` is the new node, of `h` levels.
pub record Grown {K : Type 0} (s s' : SkipList K) (k : K) (h : ℕ) (prev : ℕ → ℕ) : Type 0 where
  pub grown : s'.allocated ≡ s.allocated + 1
  pub new_key : s'.key s.allocated ≡ k
  pub old_key : (a : ℕ) → a < s.allocated → s'.key a ≡ s.key a
  pub new_height : s'.height s.allocated ≡ h
  pub old_height : (a : ℕ) → a < s.allocated → s'.height a ≡ s.height a
  pub fits : (1 ≤ h) × (h ≤ s'.max_height)
  pub more_levels : (s.max_height ≤ s'.max_height) × (s'.max_height ≤ max_levels)
  pub new_link : (l : ℕ) → l < h → s'.next s.allocated l ≡ s.next (prev l) l
  pub prev_link : (l : ℕ) → l < h → s'.next (prev l) l ≡ some s.allocated
  pub old_link : (q l : ℕ) → q < s.allocated → (l < h → q ≢ prev l) → s'.next q l ≡ s.next q l

module _ {K : Type 0} (compare : K → K → Ordering) (o : IsOrder compare) (s s' : SkipList K) (k : K)
    (h : ℕ) (prev : ℕ → ℕ) (is : IsSkipList compare s)
    (fresh : (a : ℕ) → IsNode compare s a → compare (s.key a) k ≢ Ordering.eq)
    (stops : (l : ℕ) → l < h → Stops compare s k l (prev l)) (g : Grown s s' k h prev) where
  IsNode-cases : (a : ℕ) → IsNode compare s' a → (a ≡ s.allocated) ⊎ IsNode compare s a
  IsNode-cases a (low, high) = elim (Bool-cases (a == s.allocated)) [
    | inl new ↦ inl (ground arith)
    | inr old ↦ inr (low, ground (arith, g.grown))
  ]

  place_cases : (a : ℕ) → a < s'.allocated → (a ≡ s.allocated) ⊎ (a < s.allocated)
  place_cases a high = elim (Bool-cases (a == s.allocated)) [
    | inl new ↦ inl (ground arith)
    | inr old ↦ inr (ground (arith, g.grown))
  ]

  is_node : (a : ℕ) → IsNode compare s a → IsNode compare s' a
  is_node a (low, high) = (low, omega (arith, g.grown))

  IsNode-allocated : IsNode compare s' s.allocated
  IsNode-allocated = (is.has_head, omega (arith, g.grown))

  Before-same : (x : ℕ) (j : K) → x < s.allocated → Before compare s' x j ↔ Before compare s x j
  Before-same x j b = rw (g.old_key x b) ((λ t. t), λ t. t)

  Before-allocated : (j : K) → Before compare s' s.allocated j → compare k j ≡ Ordering.lt
  Before-allocated j (inl head) = absurd (omega (arith, is.has_head))
  Before-allocated j (inr lt) = rw g.new_key at lt

  -- A node behind the last one before the key is behind the key.
  behind :
      (l y : ℕ)
      → l < h
      → s.next (prev l) l ≡ some y
      → IsNode compare s y × (l < s.height y) × (compare k (s.key y) ≡ Ordering.lt)
  unfolding flip
  behind l y b e =
      let (has, before, stop) = stops l b in
      let (node, tall, _) = is.next_later (prev l) l y has e in
      (node, tall, ground (arith, fresh y node, stop y e, o.flipped (s.key y) k))

  linked_cases : (x l : ℕ) → ((l < h) × (x ≡ prev l)) ⊎ (l < h → x ≢ prev l)
  linked_cases x l = elim (Bool-cases (ltb l h)) [
    | inl below ↦ elim (Bool-cases (x == prev l)) [
      | inl here ↦ inl (ground arith, ground arith)
      | inr elsewhere ↦ inr (λ a e. ground arith)
    ]
    | inr above ↦ inr (λ a e. ground arith)
  ]

  -- The links of the old nodes that stay, and where the others lead.
  led_on :
      (x l y : ℕ)
      → x < s.allocated
      → l < s.height x
      → s.next x l ≡ some y
      → IsNode compare s' y × (l < s'.height y) × Before compare s' x (s'.key y)
  led_on x l y low tall e =
      let (node, high, b) = is.next_later x l y (low, tall) e in
      (
        is_node y node,
        rw (g.old_height y node.1) high,
        rw (g.old_key y node.1) ((Before-same x (s.key y) low).1 b),
      )

  after_new :
      (l y : ℕ)
      → l < h
      → s'.next s.allocated l ≡ some y
      → IsNode compare s' y × (l < s'.height y) × Before compare s' s.allocated (s'.key y)
  after_new l y b e =
      let (node, high, lt) = behind l y b (sym (g.new_link l b) ∙ e) in
      (is_node y node, rw (g.old_height y node.1) high, inr (rw (g.new_key, g.old_key y node.1) lt))

  to_new :
      (l : ℕ)
      → l < h
      → IsNode compare s' s.allocated
        × (l < s'.height s.allocated)
        × Before compare s' (prev l) (s'.key s.allocated)
  to_new l b =
      let (has, before, stop) = stops l b in
      (IsNode-allocated, rw g.new_height b, rw g.new_key ((Before-same (prev l) k has.0).1 before))

  grown-next_later :
      (x l y : ℕ)
      → HasLevel compare s' x l
      → s'.next x l ≡ some y
      → IsNode compare s' y × (l < s'.height y) × Before compare s' x (s'.key y)
  grown-next_later x l y (low, tall) e = elim (place_cases x low) [
    | inl new ↦ rw new (after_new l y (rw (new, g.new_height) at tall) (rw new at e))
    | inr old ↦ elim (linked_cases x l) [
      | inl (b, here) ↦
          let to : s.allocated ≡ y =
            some-injective s.allocated y
              (sym (g.prev_link l b) ∙ (ap (λ (p : ℕ). s'.next p l) (sym here) ∙ e)) in
          rw (← to, here) (to_new l b)
      | inr stays ↦
          led_on x l y old (rw (g.old_height x old) at tall) (sym (g.old_link x l old stays) ∙ e)
    ]
  ]

  Before-trans :
      (x : ℕ) (j j' : K) → Before compare s x j → compare j j' ≡ Ordering.lt → Before compare s x j'
  Before-trans x j j' (inl head) lt = inl head
  Before-trans x j j' (inr b) lt = inr (Order.lt_le_trans compare o (s.key x) j j' b (ground arith))

  -- The link of level `l` leads to a key that is at most `j`.
  abbrev Least : ℕ → ℕ → K → Type 0
  Least x l j = (y : ℕ) × (s'.next x l ≡ some y) × (compare (s'.key y) j ≢ Ordering.gt)

  Least-old :
      (x l z : ℕ)
      → x < s.allocated
      → l < s.height x
      → (l < h → x ≢ prev l)
      → IsNode compare s z
      → l < s.height z
      → Before compare s x (s.key z)
      → Least x l (s.key z)
  Least-old x l z low tall stays node high b =
      let (y, e, le) = is.next_least x l z (low, tall) node high b in
      (y, g.old_link x l low stays ∙ e, rw (g.old_key y (is.next_later x l y (low, tall) e).0.1) le)

  Least-behind :
      (l z : ℕ)
      → l < h
      → IsNode compare s z
      → l < s.height z
      → compare k (s.key z) ≡ Ordering.lt
      → Least s.allocated l (s.key z)
  Least-behind l z b node high lt =
      let (has, before, stop) = stops l b in
      let (y, e, le) =
        is.next_least (prev l) l z has node high (Before-trans (prev l) k (s.key z) before lt) in
      (y, g.new_link l b ∙ e, rw (g.old_key y (is.next_later (prev l) l y has e).0.1) le)

  Least-linked :
      (l z : ℕ)
      → l < h
      → IsNode compare s z
      → l < s.height z
      → Before compare s (prev l) (s.key z)
      → Least (prev l) l (s.key z)
  Least-linked l z b node high before =
      let (has, _, stop) = stops l b in
      let (y, e, le) = is.next_least (prev l) l z has node high before in
      (
        s.allocated,
        g.prev_link l b,
        rw g.new_key (λ gt.
            ground
              (arith, Order.lt_le_trans compare o k (s.key y) (s.key z) (behind l y b e).2 le)),
      )

  -- No node of the level stands between the last one before the key and the key.
  not_passed :
      (x l : ℕ)
      → l < h
      → IsNode compare s x
      → l < s.height x
      → compare (s.key x) k ≡ Ordering.lt
      → Before compare s (prev l) (s.key x)
      → ⊥
  not_passed x l b node tall below before =
      let (has, _, stop) = stops l b in
      let (y, e, le) = is.next_least (prev l) l x has node tall before in
      stop y e (Order.le_lt_trans compare o (s.key y) (s.key x) k le below)

  -- Where a node is not the last before the key, the last one is behind it.
  nearer :
      (x l : ℕ)
      → l < h
      → x < s.allocated
      → l < s.height x
      → x ≢ prev l
      → Before compare s x k
      → (1 ≤ prev l) × Before compare s x (s.key (prev l))
  unfolding flip
  nearer x l b low tall apart before = elim (Bool-cases (x == 0)) [
    | inl at_head ↦
        let head : x ≡ 0 = ground arith in (positive (prev l) (λ z. apart (head ∙ sym z)), inl head)
    | inr at_node ↦
        let node : IsNode compare s x = (ground arith, low) in
        let below : compare (s.key x) k ≡ Ordering.lt = elim before [
          | inl head ↦ absurd (omega (arith, node.0, head))
          | inr lt ↦ lt
        ] in
        let p_node : 1 ≤ prev l =
          positive (prev l) (λ z. not_passed x l b node tall below (inl z)) in
        (
          p_node,
          inr (elim (order_cases (compare (s.key x) (s.key (prev l)))) [
            | inl lt ↦ lt
            | inr (inl same) ↦
                absurd (apart (is.distinct x (prev l) node (p_node, (stops l b).0.0) same))
            | inr (inr gt) ↦ absurd (
                not_passed x l b node tall below
                  (inr (ground (arith, o.flipped (s.key x) (s.key (prev l))))))
          ]),
        )
  ]
    where
      order_cases : (r : Ordering) → (r ≡ Ordering.lt) ⊎ ((r ≡ Ordering.eq) ⊎ (r ≡ Ordering.gt))
      order_cases Ordering.lt = inl refl
      order_cases Ordering.eq = inr (inl refl)
      order_cases Ordering.gt = inr (inr refl)

      positive : (p : ℕ) → p ≢ 0 → 1 ≤ p
      positive zero e = absurd (e refl)
      positive (suc p) e = omega arith

  Least-key :
      (x l : ℕ)
      → l < h
      → x < s.allocated
      → l < s.height x
      → x ≢ prev l
      → Before compare s x k
      → Least x l k
  Least-key x l b low tall apart before =
      let (has, before_k, stop) = stops l b in
      let (above, near) = nearer x l b low tall apart before in
      let (y, e, le) = Least-old x l (prev l) low tall (λ c. apart) (above, has.0) has.1 near in
      (
        y,
        e,
        λ gt. elim before_k [
          | inl head ↦ absurd (omega (arith, above, head))
          | inr lt ↦ ground (arith, Order.le_lt_trans compare o (s'.key y) (s.key (prev l)) k le lt)
        ],
      )

  grown-next_least :
      (x l z : ℕ)
      → HasLevel compare s' x l
      → IsNode compare s' z
      → l < s'.height z
      → Before compare s' x (s'.key z)
      → (y : ℕ) × (s'.next x l ≡ some y) × (compare (s'.key y) (s'.key z) ≢ Ordering.gt)
  grown-next_least x l z (low, tall) node high b = elim (place_cases x low) [
    | inl new ↦ elim (IsNode-cases z node) [
      | inl new_z ↦ absurd (
          ground (
            arith,
            Order.compare_refl compare o k,
            rw g.new_key at (Before-allocated (s'.key s.allocated) (rw (new, new_z) at b)),
          ))
      | inr old_z ↦
          rw (new, g.old_key z old_z.1)
            (Least-behind l z (rw (new, g.new_height) at tall) old_z
              (rw (g.old_height z old_z.1) at high)
              (Before-allocated (s.key z) (rw (new, g.old_key z old_z.1) at b)))
    ]
    | inr old ↦ elim (IsNode-cases z node) [
      | inl new_z ↦ elim (linked_cases x l) [
        | inl (c, here) ↦
            rw (here, new_z)
              (
                s.allocated,
                g.prev_link l c,
                λ gt. ground (arith, Order.compare_refl compare o (s'.key s.allocated)),
              )
        | inr stays ↦
            rw (new_z, g.new_key)
              (Least-key x l (rw (new_z, g.new_height) at high) old
                (rw (g.old_height x old) at tall) (stays (rw (new_z, g.new_height) at high))
                ((Before-same x k old).0 (rw (new_z, g.new_key) at b)))
      ]
      | inr old_z ↦ elim (linked_cases x l) [
        | inl (c, here) ↦
            rw (here, g.old_key z old_z.1)
              (Least-linked l z c old_z (rw (g.old_height z old_z.1) at high)
                (rw here at ((Before-same x (s.key z) old).0 (rw (g.old_key z old_z.1) at b))))
        | inr stays ↦ rw (g.old_key z old_z.1) (
            Least-old x l z old (rw (g.old_height x old) at tall) stays old_z
              (rw (g.old_height z old_z.1) at high)
              ((Before-same x (s.key z) old).0 (rw (g.old_key z old_z.1) at b)))
      ]
    ]
  ]

  grown-distinct :
      (a b : ℕ)
      → IsNode compare s' a
      → IsNode compare s' b
      → compare (s'.key a) (s'.key b) ≡ Ordering.eq
      → a ≡ b
  unfolding flip
  grown-distinct a b na nb e = elim (IsNode-cases a na) [
    | inl new_a ↦ elim (IsNode-cases b nb) [
      | inl new_b ↦ new_a ∙ sym new_b
      | inr old_b ↦ absurd (
          fresh b old_b (
            ground (arith, o.flipped k (s.key b), rw (new_a, g.new_key, g.old_key b old_b.1) at e)))
    ]
    | inr old_a ↦ elim (IsNode-cases b nb) [
      | inl new_b ↦ absurd (fresh a old_a (rw (new_b, g.new_key, g.old_key a old_a.1) at e))
      | inr old_b ↦ is.distinct a b old_a old_b (rw (g.old_key a old_a.1, g.old_key b old_b.1) at e)
    ]
  ]

  grown-node_height :
      (a : ℕ) → IsNode compare s' a → (1 ≤ s'.height a) × (s'.height a ≤ s'.max_height)
  grown-node_height a node = elim (IsNode-cases a node) [
    | inl new ↦ rw (new, g.new_height) g.fits
    | inr old ↦
        rw (g.old_height a old.1)
          (omega (arith, is.node_height a old), omega (arith, is.node_height a old, g.more_levels))
  ]

  pub grown-IsSkipList : IsSkipList compare s'
  grown-IsSkipList = record {
    has_head = omega (arith, g.grown);
    head_height = g.old_height 0 is.has_head ∙ is.head_height;
    some_level = omega (arith, is.some_level, g.more_levels);
    few_levels = g.more_levels.1;
    node_height = grown-node_height;
    next_later = grown-next_later;
    next_least = grown-next_least;
    distinct = grown-distinct;
  }
