-- ===== src/Util/Comparator.antt =====
-- kv/util/comparator.cpp: the byte order with its separators and successors, and the interface of
-- kv/include/comparator.h that the store takes as a parameter.
pub mod Shorten
use quas_db.Base.{
  ℕ, zero, suc, ◌+◌, ◌-◌, ◌%◌, ◌≤◌, ltb, leb, ◌==◌, ◌&&◌, not, if◌then◌else◌, List, [], ◌∷◌, ◌++◌,
  length, get_or, take, All, ◌<◌, ◌≡◌, ◌≢◌,
}
use quas_db.Util.Order.{Ordering, IsOrder}
use quas_db.Util.Slice.{slice_compare}

pub record Comparator : Type 0 where
  pub compare : List ℕ → List ℕ → Ordering
  pub find_shortest_separator : List ℕ → List ℕ → List ℕ
  pub find_short_successor : List ℕ → List ℕ

-- What comparator.h asks of the three methods.
pub record IsComparator (c : Comparator) : Type 0 where
  pub order : IsOrder c.compare
  pub separator_from :
      (start limit : List ℕ)
      → c.compare start limit ≡ Ordering.lt
      → c.compare start (c.find_shortest_separator start limit) ≢ Ordering.gt
  pub separator_to :
      (start limit : List ℕ)
      → c.compare start limit ≡ Ordering.lt
      → c.compare (c.find_shortest_separator start limit) limit ≡ Ordering.lt
  pub successor_from :
      (key : List ℕ)
      → All (λ b. b < 256) key
      → c.compare key (c.find_short_successor key) ≢ Ordering.gt

-- `while (i < min_length && a[i] == b[i]) i++`, with `rounds` left before `min_length`.
unfoldable pub common_prefix_loop : (rounds : ℕ) → List ℕ → List ℕ → ℕ → ℕ
common_prefix_loop zero a b i = i
common_prefix_loop (suc rounds) a b i =
    let next = common_prefix_loop rounds a b (i + 1) in
    if get_or a i 0 == get_or b i 0 then next else i

abbrev pub min_size : List ℕ → List ℕ → ℕ
min_size a b = if ltb (length b) (length a) then length b else length a

unfoldable pub find_shortest_separator : List ℕ → List ℕ → List ℕ
unfolding common_prefix_loop
find_shortest_separator start limit =
    let min_length = min_size start limit in
    let diff_index = common_prefix_loop min_length start limit 0 in
    let diff_byte = get_or start diff_index 0 in
    if leb min_length diff_index
    then start
    else if ltb diff_byte 0xff && ltb (diff_byte + 1) (get_or limit diff_index 0)
    then take diff_index start ++ ((diff_byte + 1) % 256 ∷ [])
    else start

-- The loop over `i`: bytes 0xff are passed over and kept, the first other one is the last kept.
unfoldable pub find_short_successor : List ℕ → List ℕ
find_short_successor [] = []
find_short_successor (byte ∷ key) =
    if not (byte == 0xff) then (byte + 1) % 256 ∷ [] else byte ∷ find_short_successor key

abbrev pub bytewise_comparator : Comparator
bytewise_comparator = record {
  compare = slice_compare;
  find_shortest_separator = find_shortest_separator;
  find_short_successor = find_short_successor;
}
