-- ===== src/Tests/VersionSet.antt =====
-- The searches of kv/db/version_set.cpp at concrete files.
use quas_db.Base.{◌+◌, ◌*◌, ◌≤◌, ◌≡◌, true, false, some, List, [], ◌∷◌, All, arith}
use quas_db.Util.Coding.{decode_fixed64}
use quas_db.Util.Slice.{slice_compare}
use quas_db.Util.Slice.Lex.{slice_compare-IsOrder}
use quas_db.Util.Comparator.{bytewise_comparator}
use quas_db.Util.Status.{bytes}
use quas_db.Db.Format.{internal_compare, extract_user_key, tag_of, max_sequence_number}
use quas_db.Db.VersionEdit.{FileMetaData}
use quas_db.Db.VersionSet.{find_file, some_file_overlaps_range, small_key}
use quas_db.Db.VersionSet.FindFile.{IsRising, scan, find_file-scan}
use quas_db.Db.VersionSet.Overlap.{StartsRise, overlaps_search-loop}

-- The user keys "b" to "d", and "f" to "h", at sequence number 1.
abbrev first_file : FileMetaData
first_file = record {
  number = 1;
  file_size = 10;
  smallest = 98 ∷ 1 ∷ 1 ∷ 0 ∷ 0 ∷ 0 ∷ 0 ∷ 0 ∷ 0 ∷ [];
  largest = 100 ∷ 1 ∷ 1 ∷ 0 ∷ 0 ∷ 0 ∷ 0 ∷ 0 ∷ 0 ∷ [];
}

abbrev second_file : FileMetaData
second_file = record {
  number = 2;
  file_size = 10;
  smallest = 102 ∷ 1 ∷ 1 ∷ 0 ∷ 0 ∷ 0 ∷ 0 ∷ 0 ∷ 0 ∷ [];
  largest = 104 ∷ 1 ∷ 1 ∷ 0 ∷ 0 ∷ 0 ∷ 0 ∷ 0 ∷ 0 ∷ [];
}

abbrev level : List FileMetaData
level = first_file ∷ second_file ∷ []

level-IsRising : IsRising bytewise_comparator level
unfolding internal_compare extract_user_key slice_compare
level-IsRising = (((λ e. cc), tt), (tt, tt))

level-StartsRise : StartsRise bytewise_comparator slice_compare-IsOrder level
unfolding extract_user_key slice_compare
level-StartsRise = (((λ e. cc), tt), (tt, tt))

level_tags : All (λ f. tag_of f.largest ≤ max_sequence_number * 256 + 1) level
unfolding tag_of decode_fixed64
level_tags = (omega arith, (omega arith, tt))

find_file-scan_example :
    find_file bytewise_comparator level (small_key (bytes "e"))
    ≡ some (scan bytewise_comparator (small_key (bytes "e")) level)
find_file-scan_example =
    find_file-scan bytewise_comparator slice_compare-IsOrder level (small_key (bytes "e"))
      level-IsRising (omega arith)

overlaps_search-loop_example :
    some_file_overlaps_range bytewise_comparator true level (some (bytes "e")) (some (bytes "g"))
    ≡ some_file_overlaps_range bytewise_comparator false level (some (bytes "e")) (some (bytes "g"))
overlaps_search-loop_example =
    overlaps_search-loop bytewise_comparator slice_compare-IsOrder level (some (bytes "e"))
      (some (bytes "g")) level-IsRising level-StartsRise level_tags (omega arith)
