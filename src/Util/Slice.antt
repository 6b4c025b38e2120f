-- ===== src/Util/Slice.antt =====
-- kv/include/slice.h: comparison, equality and prefixes of byte strings. A slice is the list of its
-- bytes, so its pointer arithmetic is `take` and `drop`.
pub mod Lex
use quas_db.Base.{
  ℕ, zero, suc, Bool, ◌&&◌, ltb, leb, ◌==◌, if◌then◌else◌, List, [], ◌∷◌, length, get_or,
}
use quas_db.Util.Order.{Ordering}
use Prim.Native.Nat.{compare}

-- memcmp over the first `n` bytes, as unsigned numbers.
unfoldable pub memcmp : ℕ → List ℕ → List ℕ → Ordering
memcmp zero a b = Ordering.eq
memcmp (suc n) [] b = Ordering.eq
memcmp (suc n) (x ∷ a) [] = Ordering.eq
memcmp (suc n) (x ∷ a) (y ∷ b) =
    let rest = memcmp n a b in
    elim (compare x y) [
      | Ordering.lt ↦ Ordering.lt
      | Ordering.eq ↦ rest
      | Ordering.gt ↦ Ordering.gt
    ]

unfoldable pub slice_compare : List ℕ → List ℕ → Ordering
unfolding memcmp
slice_compare a b =
    let min_len = if ltb (length a) (length b) then length a else length b in
    elim (memcmp min_len a b) [
      | Ordering.lt ↦ Ordering.lt
      | Ordering.gt ↦ Ordering.gt
      | Ordering.eq ↦
          if ltb (length a) (length b)
          then Ordering.lt
          else if ltb (length b) (length a)
          then Ordering.gt
          else Ordering.eq
    ]

abbrev is_zero : Ordering → Bool
is_zero r = elim r [ Ordering.eq ↦ Bool.true | _ ↦ Bool.false ]

unfoldable pub starts_with : List ℕ → List ℕ → Bool
unfolding memcmp
starts_with a x = leb (length x) (length a) && is_zero (memcmp (length x) a x)

unfoldable pub slice_eq : List ℕ → List ℕ → Bool
unfolding memcmp
slice_eq x y = length x == length y && is_zero (memcmp (length x) x y)
