-- ===== src/Util/Iterator.antt =====
-- kv/include/iterator.h: the methods of an iterator, as functions of its state, and what the header
-- asks of them.
use quas_db.Base.{ℕ, ◌≡◌, Bool, true, false, if◌then◌else◌, Option, none, some, List, [], ◌∷◌}
use mathlib.Core.List.{reverse}
use quas_db.Util.Order.{Ordering, is_lt}
use quas_db.Util.Status.{Status, ok}

pub record Iterator (I : Type 0) : Type 0 where
  pub valid : I → Bool
  pub seek_to_first : I → I
  pub seek_to_last : I → I
  pub seek : I → List ℕ → I
  pub next : I → I
  pub prev : I → I
  pub key : I → List ℕ
  pub value : I → List ℕ
  pub status : I → Status

-- An entry with those before it, the nearest first, and those behind it; `none` where an iterator is
-- not valid.
abbrev pub Place : Type 0 → Type 0
Place E = Option (List E × E × List E)

abbrev pub first_of : {E : Type 0} → List E → List E → Place E
first_of before [] = none
first_of before (e ∷ after) = some (before, e, after)

abbrev pub last_of : {E : Type 0} → List E → List E → Place E
last_of [] after = none
last_of (e ∷ before) after = some (before, e, after)

abbrev pub is_place : {E : Type 0} → Place E → Bool
is_place none = false
is_place (some p) = true

-- The first entry at or past a target.
module _ {E : Type 0} (key_of : E → List ℕ) (compare : List ℕ → List ℕ → Ordering) where
  abbrev pub first_past : List ℕ → List E → List E → Place E
  first_past target before [] = none
  first_past target before (e ∷ after) =
      let later = first_past target (e ∷ before) after in
      if is_lt (compare (key_of e) target) then later else some (before, e, after)

-- An iterator over some entries, which are kept as bytes.
pub record IsIterator {I E : Type 0} (it : Iterator I) (coded : E → List ℕ × List ℕ)
    (compare : List ℕ → List ℕ → Ordering) (place : I → Place E) (es : List E) : Type 0 where
  pub valid_place : (i : I) → it.valid i ≡ is_place (place i)
  pub key_of :
      (i : I) (before : List E) (e : E) (after : List E)
      → place i ≡ some (before, e, after)
      → it.key i ≡ (coded e).0
  pub value_of :
      (i : I) (before : List E) (e : E) (after : List E)
      → place i ≡ some (before, e, after)
      → it.value i ≡ (coded e).1
  pub next_place :
      (i : I) (before : List E) (e : E) (after : List E)
      → place i ≡ some (before, e, after)
      → place (it.next i) ≡ first_of (e ∷ before) after
  pub prev_place :
      (i : I) (before : List E) (e : E) (after : List E)
      → place i ≡ some (before, e, after)
      → place (it.prev i) ≡ last_of before (e ∷ after)
  pub first_place : (i : I) → place (it.seek_to_first i) ≡ first_of [] es
  pub last_place : (i : I) → place (it.seek_to_last i) ≡ last_of (reverse es) []
  pub seek_place :
      (i : I) (target : List ℕ)
      → place (it.seek i target) ≡ first_past (λ e. (coded e).0) compare target [] es
  pub status_ok : (i : I) → it.status i ≡ ok
