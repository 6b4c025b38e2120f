-- ===== src/Db/OrderedSet.antt =====
-- kv/db/skiplist.h as its client sees it: a set that grows, in the order of a comparison.
use quas_db.Base.{◌≡◌, ◌≢◌, ◌↔◌, ◌⊎◌, Option, none, some}
use quas_db.Util.Order.{Ordering}

-- `seek` is Seek and then Valid and key of an iterator.
pub record OrderedSet (K : Type 0) (T : Type 0) : Type 0 where
  pub empty : T
  pub insert : T → K → T
  pub seek : T → K → Option K

-- `Holds` says what is in the set; only keys are inserted that compare equal to none of them.
pub record IsOrderedSet {K T : Type 0} (compare : K → K → Ordering) (set : OrderedSet K T)
    (Holds : T → K → Type 0) : Type 0 where
  pub not_empty : (k : K) → Holds set.empty k → ⊥
  pub insert_holds :
      (t : T) (k e : K)
      → ((x : K) → Holds t x → compare x k ≢ Ordering.eq)
      → Holds (set.insert t k) e ↔ ((e ≡ k) ⊎ Holds t e)
  pub seek_none : (t : T) (k e : K) → set.seek t k ≡ none → Holds t e → compare e k ≡ Ordering.lt
  pub seek_holds : (t : T) (k x : K) → set.seek t k ≡ some x → Holds t x
  pub seek_from : (t : T) (k x : K) → set.seek t k ≡ some x → compare x k ≢ Ordering.lt
  pub seek_first :
      (t : T) (k x e : K)
      → set.seek t k ≡ some x
      → Holds t e
      → compare e k ≢ Ordering.lt
      → compare x e ≢ Ordering.gt
