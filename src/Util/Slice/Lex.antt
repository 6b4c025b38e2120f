-- ===== src/Util/Slice/Lex.antt =====
-- Slice::compare is the lexicographic order of bytes, a total order that tells all strings apart.
use quas_db.Base.{ℕ, ◌≡◌, ◌≢◌, refl, ◌↔◌, List, [], ◌∷◌, ◌++◌, length, arith}
use quas_db.Util.Order.{Ordering, flip, IsOrder}
use quas_db.Util.Slice.{memcmp, slice_compare}
use Prim.Native.Nat.{compare}
use quas_db.Util.Order

unfoldable pub lex : List ℕ → List ℕ → Ordering
lex [] [] = Ordering.eq
lex [] (y ∷ b) = Ordering.lt
lex (x ∷ a) [] = Ordering.gt
lex (x ∷ a) (y ∷ b) =
    let rest = lex a b in
    elim (compare x y) [
      | Ordering.lt ↦ Ordering.lt
      | Ordering.eq ↦ rest
      | Ordering.gt ↦ Ordering.gt
    ]

-- Slice::compare is the lexicographic order.
pub slice_compare-lex : (a b : List ℕ) → slice_compare a b ≡ lex a b
unfolding slice_compare lex
slice_compare-lex [] [] = refl
slice_compare-lex [] (y ∷ b) = ground arith
slice_compare-lex (x ∷ a) [] = ground arith
slice_compare-lex (x ∷ a) (y ∷ b) = ground (arith, slice_compare-lex a b)

lex-flipped : (a b : List ℕ) → lex b a ≡ flip (lex a b)
unfolding lex flip
lex-flipped [] [] = refl
lex-flipped [] (y ∷ b) = refl
lex-flipped (x ∷ a) [] = refl
lex-flipped (x ∷ a) (y ∷ b) = ground (arith, lex-flipped a b)

lex-le_trans :
    (a b c : List ℕ) → lex a b ≢ Ordering.gt → lex b c ≢ Ordering.gt → lex a c ≢ Ordering.gt
unfolding lex
lex-le_trans [] b [] h k = λ e. cc
lex-le_trans [] b (z ∷ c) h k = λ e. cc
lex-le_trans (x ∷ a) [] c h k = absurd (h refl)
lex-le_trans (x ∷ a) (y ∷ b) [] h k = absurd (k refl)
lex-le_trans (x ∷ a) (y ∷ b) (z ∷ c) h k = ground (arith, lex-le_trans a b c)

pub lex-IsOrder : IsOrder lex
lex-IsOrder = record { flipped = lex-flipped; le_trans = lex-le_trans }

pub lex-eq : (a b : List ℕ) → lex a b ≡ Ordering.eq → a ≡ b
unfolding lex
lex-eq [] [] h = refl
lex-eq [] (y ∷ b) h = cc
lex-eq (x ∷ a) [] h = cc
lex-eq (x ∷ a) (y ∷ b) h = ground (arith, lex-eq a b)

-- Two slices compare equal exactly when their bytes are the same.
pub slice_compare-eq : (a b : List ℕ) → (slice_compare a b ≡ Ordering.eq) ↔ (a ≡ b)
slice_compare-eq a b = (
  (λ h. lex-eq a b (rw slice_compare-lex at h)),
  (λ e. rw (slice_compare-lex, e) (Order.compare_refl lex lex-IsOrder b)),
)

-- The three-way comparison of slices is a total order.
pub slice_compare-IsOrder : IsOrder slice_compare
slice_compare-IsOrder = record {
  flipped = λ a b. simp slice_compare-lex (lex-flipped a b);
  le_trans = λ a b c. simp slice_compare-lex (lex-le_trans a b c);
}

starts_with_loop : (x rest : List ℕ) → memcmp (length x) (x ++ rest) x ≡ Ordering.eq
unfolding memcmp
starts_with_loop [] rest = refl
starts_with_loop (b ∷ x) rest = ground (arith, starts_with_loop x rest)

pub lex_refl : (a : List ℕ) → lex a a ≡ Ordering.eq
lex_refl a = Order.compare_refl lex lex-IsOrder a
