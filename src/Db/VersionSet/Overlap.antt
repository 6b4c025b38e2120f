-- ===== src/Db/VersionSet/Overlap.antt =====
-- SomeFileOverlapsRange: the search and the loop over all files agree.
use quas_db.Base.{
  ℕ, suc, ◌+◌, ◌*◌, ◌≤◌, ◌<◌, ◌^◌, ◌≡◌, ◌≢◌, inl, inr, refl, sym, ap, ◌∙◌, true, false, not,
  Bool-cases, Option, none, some, List, [], ◌∷◌, length, All, arith,
}
use quas_db.Util.Order
use quas_db.Util.Order.{Ordering, is_lt, is_gt, flip, IsOrder}
use quas_db.Util.Comparator.{Comparator}
use quas_db.Db.Format.{
  internal_compare, extract_user_key, append_internal_key, pack_sequence_and_type, tag_of,
  max_sequence_number, value_type_for_seek,
}
use quas_db.Util.Coding.{put_fixed64}
use quas_db.Db.Format.Keys.{extract-with_tag, tag_of-with_tag, pack_sum, pack-fits}
use quas_db.Db.VersionEdit.{FileMetaData}
use quas_db.Db.VersionSet.{
  ends_before, after_file, before_file, overlap_loop, small_key, start_index, overlap_at,
  some_file_overlaps_range,
}
use quas_db.Db.VersionSet.FindFile.{IsRising, scan, find_file-scan}

module _ (user : Comparator) (o : IsOrder user.compare) where
  -- The files in the order of their smallest user keys.
  abbrev pub StartsRise : List FileMetaData → Type 0
  StartsRise [] = Unit {0}
  StartsRise (f ∷ fs) =
      All
        (λ g.
          user.compare (extract_user_key f.smallest) (extract_user_key g.smallest) ≢ Ordering.gt)
        fs
      × StartsRise fs

  before_file_up :
      (l : Option (List ℕ)) (f g : FileMetaData)
      → user.compare (extract_user_key f.smallest) (extract_user_key g.smallest) ≢ Ordering.gt
      → before_file user l f ≡ true
      → before_file user l g ≡ true
  unfolding before_file
  before_file_up none f g h e = absurd (ground arith)
  before_file_up (some k) f g h e = ground (
    arith,
    Order.lt_le_trans user.compare o k (extract_user_key f.smallest) (extract_user_key g.smallest),
  )

  none_overlaps_behind :
      (s l : Option (List ℕ)) (f : FileMetaData) (fs : List FileMetaData)
      → All
          (λ g.
            user.compare (extract_user_key f.smallest) (extract_user_key g.smallest) ≢ Ordering.gt)
          fs
      → before_file user l f ≡ true
      → overlap_loop user s l fs ≡ false
  unfolding overlap_loop
  none_overlaps_behind s l f [] h e = refl
  none_overlaps_behind s l f (g ∷ fs) (p, h) e =
      ground (arith, before_file_up l f g p e, none_overlaps_behind s l f fs h e)

  -- Where the first file does not lie before the range, it decides.
  first_decides :
      (s l : Option (List ℕ)) (f : FileMetaData) (fs : List FileMetaData)
      → StartsRise (f ∷ fs)
      → after_file user s f ≡ false
      → overlap_loop user s l (f ∷ fs) ≡ not (before_file user l f)
  unfolding overlap_loop
  first_decides s l f fs (p, h) e = elim (Bool-cases (before_file user l f)) [
    | inl b ↦ ground (arith, none_overlaps_behind s l f fs p b)
    | inr b ↦ ground arith
  ]

  small_key-tag : (key : List ℕ) → tag_of (small_key key) ≡ max_sequence_number * 256 + 1
  unfolding append_internal_key put_fixed64
  small_key-tag key =
      tag_of-with_tag key (pack_sequence_and_type max_sequence_number value_type_for_seek)
        (pack-fits max_sequence_number value_type_for_seek (omega arith))
      ∙ (pack_sum max_sequence_number value_type_for_seek (omega arith))

  small_key-user : (key : List ℕ) → extract_user_key (small_key key) ≡ key
  unfolding append_internal_key put_fixed64
  small_key-user key =
      extract-with_tag key (pack_sequence_and_type max_sequence_number value_type_for_seek)

  first_tag-compare :
      (key big small : List ℕ)
      → extract_user_key small ≡ key
      → tag_of big ≤ tag_of small
      → is_lt (internal_compare user big small) ≡ is_lt (user.compare (extract_user_key big) key)
  unfolding internal_compare
  first_tag-compare key big small e h = rw (← e) (ground arith)

  ends_before-small_key :
      (key : List ℕ) (f : FileMetaData)
      → tag_of f.largest ≤ max_sequence_number * 256 + 1
      → ends_before user (small_key key) f ≡ after_file user (some key) f
  unfolding after_file flip
  ends_before-small_key key f h = ground (
    arith,
    first_tag-compare key f.largest (small_key key) (small_key-user key)
        (omega (arith, h, small_key-tag key)),
    o.flipped key (extract_user_key f.largest),
  )

  overlap_at-suc :
      (l : Option (List ℕ)) (f : FileMetaData) (fs : List FileMetaData) (i : ℕ)
      → overlap_at user l (f ∷ fs) (suc i) ≡ overlap_at user l fs i
  overlap_at-suc l f fs i = ground arith

  overlap_at-first :
      (l : Option (List ℕ)) (f : FileMetaData) (fs : List FileMetaData)
      → overlap_at user l (f ∷ fs) 0 ≡ not (before_file user l f)
  overlap_at-first l f fs = ground arith

  overlap_at-scan :
      (key : List ℕ) (l : Option (List ℕ)) (fs : List FileMetaData)
      → All (λ f. tag_of f.largest ≤ max_sequence_number * 256 + 1) fs
      → StartsRise fs
      → overlap_at user l fs (scan user (small_key key) fs) ≡ overlap_loop user (some key) l fs
  unfolding overlap_loop scan
  overlap_at-scan key l [] t h = refl
  overlap_at-scan key l (f ∷ fs) (t, ts) (p, h) = elim (Bool-cases (after_file user (some key) f)) [
    | inl a ↦
        rw (ends_before-small_key key f t, a)
          (overlap_at-suc l f fs (scan user (small_key key) fs) ∙ overlap_at-scan key l fs ts h)
    | inr a ↦
        rw (ends_before-small_key key f t, a)
          (overlap_at-first l f fs ∙ (rw a at (sym (first_decides (some key) l f fs (p, h) a))))
  ]

  -- On fewer than 2^31 files that stand in the order of their largest internal keys and of their
  -- smallest user keys, and whose largest keys have no tag above that of the first key of a user key,
  -- the search of SomeFileOverlapsRange gives what its loop over all files gives, for every range.
  pub overlaps_search-loop :
      (files : List FileMetaData) (smallest largest : Option (List ℕ))
      → IsRising user files
      → StartsRise files
      → All (λ f. tag_of f.largest ≤ max_sequence_number * 256 + 1) files
      → length files < 2 ^ 31
      → some_file_overlaps_range user true files smallest largest
        ≡ some_file_overlaps_range user false files smallest largest
  unfolding some_file_overlaps_range start_index overlap_loop after_file
  overlaps_search-loop [] none largest r p t h = refl
  overlaps_search-loop (f ∷ fs) none largest r p t h =
      ap some (overlap_at-first largest f fs ∙ sym (first_decides none largest f fs p refl))
  overlaps_search-loop files (some key) largest r p t h =
      rw (find_file-scan user o files (small_key key) r h)
        (ap some (overlap_at-scan key largest files t p))
