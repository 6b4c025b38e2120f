-- ===== src/Util/Comparator/Shorten.antt =====
-- The separators and successors of the byte order lie where comparator.h wants them.
use quas_db.Base.{
  ℕ, zero, suc, ◌+◌, ◌%◌, ◌≤◌, ◌<◌, ltb, leb, ◌==◌, ◌&&◌, if◌then◌else◌, List, [], ◌∷◌, ◌++◌,
  length, get_or, take, All, ◌≡◌, ◌≢◌, refl, ap, ◌∙◌, arith,
}
use quas_db.Util.Order.{Ordering}
use quas_db.Util.Slice.{slice_compare}
use quas_db.Util.Slice.Lex.{lex, slice_compare-lex, slice_compare-IsOrder, lex_refl}
use quas_db.Util.Comparator.{
  IsComparator, common_prefix_loop, min_size, find_shortest_separator, find_short_successor,
  bytewise_comparator,
}

-- The number of bytes that two strings share at their front.
unfoldable pub shared_size : List ℕ → List ℕ → ℕ
shared_size [] b = 0
shared_size (x ∷ a) [] = 0
shared_size (x ∷ a) (y ∷ b) = let rest = shared_size a b in if x == y then suc rest else 0

-- One byte more in front of both moves the loop by one.
loop_shift :
    (r x y i : ℕ) (a b : List ℕ)
    → common_prefix_loop r (x ∷ a) (y ∷ b) (suc i) ≡ suc (common_prefix_loop r a b i)
unfolding common_prefix_loop
loop_shift zero x y i a b = refl
loop_shift (suc r) x y i a b = ground (arith, loop_shift r x y (i + 1) a b)

pub common_prefix_loop-shared :
    (a b : List ℕ) → common_prefix_loop (min_size a b) a b 0 ≡ shared_size a b
unfolding common_prefix_loop shared_size
common_prefix_loop-shared [] [] = refl
common_prefix_loop-shared [] (y ∷ b) = ground arith
common_prefix_loop-shared (x ∷ a) [] = ground arith
common_prefix_loop-shared (x ∷ a) (y ∷ b) =
    ground (arith, loop_shift (min_size a b) x y 0 a b, common_prefix_loop-shared a b)

-- The separator by recursion on the strings.
separator : List ℕ → List ℕ → List ℕ
separator [] l = []
separator (x ∷ s) [] = x ∷ s
separator (x ∷ s) (y ∷ l) =
    let rest = x ∷ separator s l in
    if x == y then rest else if ltb x 0xff && ltb (x + 1) y then (x + 1) % 256 ∷ [] else x ∷ s

-- The rest of the method once the difference is at `n`.
cut_at : ℕ → List ℕ → List ℕ → List ℕ
cut_at n start limit =
    if leb (min_size start limit) n
    then start
    else if ltb (get_or start n 0) 0xff && ltb (get_or start n 0 + 1) (get_or limit n 0)
    then take n start ++ ((get_or start n 0 + 1) % 256 ∷ [])
    else start

cut_at-suc : (n x y : ℕ) (s l : List ℕ) → cut_at (suc n) (x ∷ s) (y ∷ l) ≡ x ∷ cut_at n s l
unfolding cut_at
cut_at-suc n x y s l = ground arith

cut_at-zero :
    (x y : ℕ) (s l : List ℕ)
    → cut_at 0 (x ∷ s) (y ∷ l) ≡ (if ltb x 0xff && ltb (x + 1) y then (x + 1) % 256 ∷ [] else x ∷ s)
unfolding cut_at
cut_at-zero x y s l = ground arith

cut_at_prefix : (s l : List ℕ) → min_size s l ≡ 0 → cut_at 0 s l ≡ s
unfolding cut_at
cut_at_prefix s l h = rw h

cut_at-separator : (s l : List ℕ) → cut_at (shared_size s l) s l ≡ separator s l
unfolding shared_size separator
cut_at-separator [] [] = cut_at_prefix [] [] (omega arith)
cut_at-separator [] (y ∷ l) = cut_at_prefix [] (y ∷ l) (ground arith)
cut_at-separator (x ∷ s) [] = cut_at_prefix (x ∷ s) [] (ground arith)
cut_at-separator (x ∷ s) (y ∷ l) =
    ground (arith, cut_at-suc (shared_size s l) x y s l, cut_at-zero x y s l, cut_at-separator s l)

find_shortest_separator-separator : (s l : List ℕ) → find_shortest_separator s l ≡ separator s l
unfolding find_shortest_separator
find_shortest_separator-separator s l =
    unfold cut_at in (ap (λ n. cut_at n s l) (common_prefix_loop-shared s l) ∙ cut_at-separator s l)

separator-from : (s l : List ℕ) → lex s (separator s l) ≢ Ordering.gt
unfolding separator lex
separator-from [] l = λ e. cc
separator-from (x ∷ s) [] = ground (arith, lex_refl s)
separator-from (x ∷ s) (y ∷ l) = ground (arith, separator-from s l, lex_refl s)

separator-to : (s l : List ℕ) → lex s l ≡ Ordering.lt → lex (separator s l) l ≡ Ordering.lt
unfolding separator lex
separator-to [] l h = h
separator-to (x ∷ s) [] h = cc
separator-to (x ∷ s) (y ∷ l) h = ground (arith, separator-to s l)

length-separator : (s l : List ℕ) → length (separator s l) ≤ length s
unfolding separator
length-separator [] l = omega arith
length-separator (x ∷ s) [] = omega arith
length-separator (x ∷ s) (y ∷ l) = ground (arith, length-separator s l)

successor-from :
    (key : List ℕ) → All (λ b. b < 256) key → lex key (find_short_successor key) ≢ Ordering.gt
unfolding find_short_successor lex
successor-from [] h = λ e. cc
successor-from (b ∷ key) (hb, h) = ground (arith, successor-from key h)

length-find_short_successor : (key : List ℕ) → length (find_short_successor key) ≤ length key
unfolding find_short_successor
length-find_short_successor [] = omega arith
length-find_short_successor (b ∷ key) = ground (arith, length-find_short_successor key)

-- The shortest separator of start < limit lies in [start, limit) in the byte order, and is no longer
-- than start.
pub shortest_separator_between :
    (start limit : List ℕ)
    → slice_compare start limit ≡ Ordering.lt
    → (slice_compare start (find_shortest_separator start limit) ≢ Ordering.gt)
      × (slice_compare (find_shortest_separator start limit) limit ≡ Ordering.lt)
      × (length (find_shortest_separator start limit) ≤ length start)
shortest_separator_between start limit h =
    simp (slice_compare-lex, find_shortest_separator-separator)
      (
        separator-from start limit,
        separator-to start limit (rw slice_compare-lex at h),
        length-separator start limit,
      )

-- The short successor of a string of bytes is not below it and not longer.
pub short_successor_from :
    (key : List ℕ)
    → All (λ b. b < 256) key
    → (slice_compare key (find_short_successor key) ≢ Ordering.gt)
      × (length (find_short_successor key) ≤ length key)
short_successor_from key h =
    (simp slice_compare-lex (successor-from key h), length-find_short_successor key)

-- The byte order keeps what comparator.h asks of a comparator.
pub bytewise_comparator-IsComparator : IsComparator bytewise_comparator
bytewise_comparator-IsComparator = record {
  order = slice_compare-IsOrder;
  separator_from = λ start limit h. (shortest_separator_between start limit h).0;
  separator_to = λ start limit h. (shortest_separator_between start limit h).1;
  successor_from = λ key h. (short_successor_from key h).0;
}
