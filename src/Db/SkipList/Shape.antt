-- ===== src/Db/SkipList/Shape.antt =====
-- What holds of a skip list: each link leads to the next node on its level.
use quas_db.Base.{ℕ, ◌≤◌, ◌<◌, ◌≡◌, ◌≢◌, ◌⊎◌, some}
use quas_db.Util.Order.{Ordering}
use quas_db.Db.SkipList.{SkipList, max_levels}

module _ {K : Type 0} (compare : K → K → Ordering) (s : SkipList K) where
  abbrev pub IsNode : ℕ → Type 0
  IsNode a = (1 ≤ a) × (a < s.allocated)

  abbrev pub HasKey : K → Type 0
  HasKey e = (a : ℕ) × IsNode a × (e ≡ s.key a)

  -- The head is before every key.
  abbrev pub Before : ℕ → K → Type 0
  Before x k = (x ≡ 0) ⊎ (compare (s.key x) k ≡ Ordering.lt)

  -- `x` has a link of level `l`.
  abbrev pub HasLevel : ℕ → ℕ → Type 0
  HasLevel x l = (x < s.allocated) × (l < s.height x)

  -- Links lead to later nodes of their level, and to the first of them; no two keys are equal.
  pub record IsSkipList : Type 0 where
    pub has_head : 1 ≤ s.allocated
    pub head_height : s.height 0 ≡ max_levels
    pub some_level : 1 ≤ s.max_height
    pub few_levels : s.max_height ≤ max_levels
    pub node_height : (a : ℕ) → IsNode a → (1 ≤ s.height a) × (s.height a ≤ s.max_height)
    pub next_later :
        (x l y : ℕ)
        → HasLevel x l
        → s.next x l ≡ some y
        → IsNode y × (l < s.height y) × Before x (s.key y)
    pub next_least :
        (x l z : ℕ)
        → HasLevel x l
        → IsNode z
        → l < s.height z
        → Before x (s.key z)
        → (y : ℕ) × (s.next x l ≡ some y) × (compare (s.key y) (s.key z) ≢ Ordering.gt)
    pub distinct :
        (a b : ℕ) → IsNode a → IsNode b → compare (s.key a) (s.key b) ≡ Ordering.eq → a ≡ b

  -- `x` is the last node of its level before the key.
  abbrev pub Stops : K → ℕ → ℕ → Type 0
  Stops k l x =
      HasLevel x l
      × Before x k
      × ((y : ℕ) → s.next x l ≡ some y → compare (s.key y) k ≢ Ordering.lt)
