-- ===== src/Util/Order.antt =====
-- What kv/include/comparator.h asks of a comparator. The sign of a three-way comparison is an
-- `Ordering`; `gt` is a positive result.
pub use Prim.Native.Nat.{Ordering}
use quas_db.Base.{◌≡◌, ◌≢◌, Bool, true, false, arith}

unfoldable pub flip : Ordering → Ordering
flip Ordering.lt = Ordering.gt
flip Ordering.eq = Ordering.eq
flip Ordering.gt = Ordering.lt

abbrev pub is_lt : Ordering → Bool
is_lt Ordering.lt = true
is_lt Ordering.eq = false
is_lt Ordering.gt = false

abbrev pub is_gt : Ordering → Bool
is_gt Ordering.lt = false
is_gt Ordering.eq = false
is_gt Ordering.gt = true

abbrev pub is_eq : Ordering → Bool
is_eq Ordering.lt = false
is_eq Ordering.eq = true
is_eq Ordering.gt = false

-- A total order, up to keys that compare equal.
pub record IsOrder {ℓ} {A : Type ℓ} (compare : A → A → Ordering) : Type ℓ where
  pub flipped : (a b : A) → compare b a ≡ flip (compare a b)
  pub le_trans :
      (a b c : A)
      → compare a b ≢ Ordering.gt
      → compare b c ≢ Ordering.gt
      → compare a c ≢ Ordering.gt

module _ {ℓ} {A : Type ℓ} (compare : A → A → Ordering) (o : IsOrder compare) where
  pub compare_refl : (a : A) → compare a a ≡ Ordering.eq
  unfolding flip
  compare_refl a = ground (arith, o.flipped a a)

  pub lt_le_trans :
      (a b c : A)
      → compare a b ≡ Ordering.lt
      → compare b c ≢ Ordering.gt
      → compare a c ≡ Ordering.lt
  unfolding flip
  lt_le_trans a b c h k = ground (arith, o.flipped a b, o.flipped a c, o.le_trans b c a)

  pub le_lt_trans :
      (a b c : A)
      → compare a b ≢ Ordering.gt
      → compare b c ≡ Ordering.lt
      → compare a c ≡ Ordering.lt
  unfolding flip
  le_lt_trans a b c h k = ground (arith, o.flipped b c, o.flipped a c, o.le_trans c a b)

  pub eq_trans :
      (a b c : A)
      → compare a b ≡ Ordering.eq
      → compare b c ≡ Ordering.eq
      → compare a c ≡ Ordering.eq
  unfolding flip
  eq_trans a b c h k =
      ground
        (arith, o.flipped a b, o.flipped b c, o.flipped a c, o.le_trans a b c, o.le_trans c b a)
