-- ===== src/Db/VersionSet.antt =====
-- kv/db/version_set.cpp: the search for a key in the files of a level, and the tests whether a range
-- of user keys overlaps files. A null user key is `none`.
pub mod FindFile
pub mod Overlap
use quas_db.Base.{
  ℕ, zero, suc, ◌+◌, ◌/◌, ◌%◌, ◌^◌, Bool, true, false, not, ◌||◌, ltb, leb, if◌then◌else◌, Option,
  none, some, List, [], ◌∷◌, length, get_or,
}
use quas_db.Util.Order.{Ordering, is_lt, is_gt}
use quas_db.Util.Comparator.{Comparator}
use quas_db.Db.Format.{
  internal_compare, extract_user_key, append_internal_key, max_sequence_number, value_type_for_seek,
}
use quas_db.Db.VersionEdit.{FileMetaData}

abbrev pub no_file : FileMetaData
no_file = record { number = 0; file_size = 0; smallest = []; largest = [] }

abbrev pub small_key : List ℕ → List ℕ
small_key user_key =
    append_internal_key []
      (record { user_key = user_key; sequence = max_sequence_number; type = value_type_for_seek })

module _ (user : Comparator) where
  -- compare(files[i]->largest, key) < 0
  abbrev pub ends_before : List ℕ → FileMetaData → Bool
  ends_before key f = is_lt (internal_compare user f.largest key)

  -- The loop of FindFile, with as much fuel as files; `none` means that the fuel ran out.
  unfoldable pub find_file_loop :
      (fuel : ℕ) → List FileMetaData → List ℕ → (left right : ℕ) → Option ℕ
  find_file_loop zero files key left right = if ltb left right then none else some right
  find_file_loop (suc fuel) files key left right =
      let mid = (left + right) % 2 ^ 32 / 2 in
      let upper = find_file_loop fuel files key (mid + 1) right in
      let lower = find_file_loop fuel files key left mid in
      if ltb left right
      then if ends_before key (get_or files mid no_file) then upper else lower
      else some right

  -- The number of files is cut to the 32 bits of `right`.
  unfoldable pub find_file : List FileMetaData → List ℕ → Option ℕ
  find_file files key = find_file_loop (length files) files key 0 (length files % 2 ^ 32)

  unfoldable pub after_file : Option (List ℕ) → FileMetaData → Bool
  after_file none f = false
  after_file (some user_key) f = is_gt (user.compare user_key (extract_user_key f.largest))

  unfoldable pub before_file : Option (List ℕ) → FileMetaData → Bool
  before_file none f = false
  before_file (some user_key) f = is_lt (user.compare user_key (extract_user_key f.smallest))

  -- The loop over all files.
  unfoldable pub overlap_loop : Option (List ℕ) → Option (List ℕ) → List FileMetaData → Bool
  overlap_loop smallest largest [] = false
  overlap_loop smallest largest (f ∷ files) =
      let rest = overlap_loop smallest largest files in
      if after_file smallest f || before_file largest f then rest else true

  unfoldable pub start_index : List FileMetaData → Option (List ℕ) → Option ℕ
  start_index files none = some 0
  start_index files (some user_key) = find_file files (small_key user_key)

  abbrev pub overlap_at : Option (List ℕ) → List FileMetaData → ℕ → Bool
  overlap_at largest files index =
      if leb (length files) index
      then false
      else not (before_file largest (get_or files index no_file))

  unfoldable pub some_file_overlaps_range :
      Bool → List FileMetaData → Option (List ℕ) → Option (List ℕ) → Option Bool
  some_file_overlaps_range disjoint_sorted_files files smallest largest =
      if not disjoint_sorted_files
      then some (overlap_loop smallest largest files)
      else elim (start_index files smallest) [
        | none ↦ none
        | some index ↦ some (overlap_at largest files index)
      ]
