-- ===== src/Db/VersionSet/FindFile.antt =====
-- FindFile is a binary search: it splits the files of a level where the key is.
use quas_db.Base.{
  ℕ, zero, suc, ◌+◌, ◌/◌, ◌%◌, ◌^◌, ◌≤◌, ◌<◌, ◌≡◌, ◌≢◌, inl, inr, refl, sym, ap, ◌∙◌, true, false,
  ltb, ◌==◌, Bool-cases, if◌then◌else◌, some, List, [], ◌∷◌, length, get_or, All, arith,
}
use quas_db.Util.Order
use quas_db.Util.Order.{Ordering, is_lt, IsOrder}
use quas_db.Util.Comparator.{Comparator}
use quas_db.Db.Format.{internal_compare}
use quas_db.Db.Format.Compare.{internal_compare-IsOrder}
use quas_db.Db.VersionEdit.{FileMetaData}
use quas_db.Db.VersionSet.{no_file, ends_before, find_file_loop, find_file}

abbrev midway : ℕ → ℕ → ℕ
midway left right = (left + right) % 2 ^ 32 / 2

midway_between :
    (left right : ℕ)
    → ltb left right ≡ true
    → right < 2 ^ 31
    → (left ≤ midway left right) × (midway left right < right)
midway_between left right more h = ground arith

module _ (user : Comparator) where
  -- The files of a level in the order of their largest keys.
  abbrev pub IsRising : List FileMetaData → Type 0
  IsRising [] = Unit {0}
  IsRising (f ∷ fs) =
      All (λ g. internal_compare user f.largest g.largest ≢ Ordering.gt) fs × IsRising fs

  All-get :
      (P : FileMetaData → Type 0) (xs : List FileMetaData) (j : ℕ)
      → All P xs
      → j < length xs
      → P (get_or xs j no_file)
  All-get P [] j h k = absurd (omega arith)
  All-get P (x ∷ xs) zero (p, h) k = p
  All-get P (x ∷ xs) (suc j) (p, h) k = All-get P xs j h (omega arith)

  IsRising-get :
      (fs : List FileMetaData) (i j : ℕ)
      → IsRising fs
      → i < j
      → j < length fs
      → internal_compare user (get_or fs i no_file).largest (get_or fs j no_file).largest
        ≢ Ordering.gt
  IsRising-get [] i j h k l = absurd (omega arith)
  IsRising-get (f ∷ fs) i zero h k l = absurd (omega arith)
  IsRising-get (f ∷ fs) zero (suc j) (p, h) k l =
      All-get (λ g. internal_compare user f.largest g.largest ≢ Ordering.gt) fs j p (omega arith)
  IsRising-get (f ∷ fs) (suc i) (suc j) (p, h) k l =
      IsRising-get fs i j h (omega arith) (omega arith)

  module _ (o : IsOrder user.compare) (fs : List FileMetaData) (key : List ℕ)
      (rising : IsRising fs) where
    ends_before_down :
        (i j : ℕ)
        → i < j
        → j < length fs
        → ends_before user key (get_or fs j no_file) ≡ true
        → ends_before user key (get_or fs i no_file) ≡ true
    ends_before_down i j h k e = ground (
      arith,
      IsRising-get fs i j rising h k,
      Order.le_lt_trans (internal_compare user) (internal_compare-IsOrder user o)
          (get_or fs i no_file).largest (get_or fs j no_file).largest key,
    )

    -- What the loop keeps: all files below `left` end before the key, none from `right` on does.
    abbrev Bracket : ℕ → ℕ → Type 0
    Bracket left right =
        ((j : ℕ) → j < left → ends_before user key (get_or fs j no_file) ≡ true)
        × ((j : ℕ) → right ≤ j → j < length fs → ends_before user key (get_or fs j no_file) ≡ false)

    keep_upper :
        (left right mid : ℕ)
        → mid < length fs
        → Bracket left right
        → ends_before user key (get_or fs mid no_file) ≡ true
        → Bracket (mid + 1) right
    keep_upper left right mid h b e = (split, b.1)
      where
        at_mid : (j : ℕ) → (j == mid) ≡ true → j ≡ mid
        at_mid j s = ground arith

        split : (j : ℕ) → j < mid + 1 → ends_before user key (get_or fs j no_file) ≡ true
        split j k = elim (Bool-cases (j == mid)) [
          | inl same ↦ rw (at_mid j same) e
          | inr apart ↦ ends_before_down j mid (ground arith) h e
        ]

    keep_lower :
        (left right mid : ℕ)
        → mid < length fs
        → Bracket left right
        → ends_before user key (get_or fs mid no_file) ≡ false
        → Bracket left mid
    keep_lower left right mid h b e = (b.0, split)
      where
        at_mid : (j : ℕ) → (j == mid) ≡ true → j ≡ mid
        at_mid j s = ground arith

        split :
            (j : ℕ) → mid ≤ j → j < length fs → ends_before user key (get_or fs j no_file) ≡ false
        split j k l = elim (Bool-cases (j == mid)) [
          | inl same ↦ rw (at_mid j same) e
          | inr apart ↦ elim (Bool-cases (ends_before user key (get_or fs j no_file))) [
            | inl early ↦ absurd (cc (ends_before_down mid j (ground arith) l early, e))
            | inr late ↦ late
          ]
        ]

    stop : (left right : ℕ) → right ≤ left → left ≤ right → Bracket left right → Bracket right right
    stop left right h k b = ((λ j l. b.0 j (omega arith)), b.1)

    loop_finds :
        (fuel left right : ℕ)
        → right ≤ left + fuel
        → left ≤ right
        → right ≤ length fs
        → length fs < 2 ^ 31
        → Bracket left right
        → (i : ℕ) × (find_file_loop user fuel fs key left right ≡ some i)
          × (i ≤ length fs)
          × Bracket i i
    unfolding find_file_loop
    loop_finds zero left right h k l m b =
        (right, ground arith, l, stop left right (omega arith) k b)
    loop_finds (suc fuel) left right h k l m b = elim (Bool-cases (ltb left right)) [
      | inr done ↦ (right, rw done refl, l, stop left right (ground arith) k b)
      | inl more ↦
          let (low, high) = midway_between left right more (omega arith) in
          let mid = midway left right in
          elim (Bool-cases (ends_before user key (get_or fs mid no_file))) [
            | inl e ↦
                rw (more, e)
                  (loop_finds fuel (mid + 1) right (omega arith) (omega arith) l m
                    (keep_upper left right mid (omega arith) b e))
            | inr e ↦
                rw (more, e)
                  (loop_finds fuel left mid (omega arith) low (omega arith) m
                    (keep_lower left right mid (omega arith) b e))
          ]
    ]

-- The number of files before the first that does not end before the key, counted one by one.
unfoldable pub scan : Comparator → List ℕ → List FileMetaData → ℕ
scan user key [] = 0
scan user key (f ∷ fs) =
    let rest = scan user key fs in if ends_before user key f then suc rest else 0

scan_at :
    (user : Comparator) (key : List ℕ) (fs : List FileMetaData) (i : ℕ)
    → i ≤ length fs
    → ((j : ℕ) → j < i → ends_before user key (get_or fs j no_file) ≡ true)
    → ((j : ℕ) → i ≤ j → j < length fs → ends_before user key (get_or fs j no_file) ≡ false)
    → scan user key fs ≡ i
unfolding scan
scan_at user key [] i h below above = omega arith
scan_at user key (f ∷ fs) zero h below above = rw (above 0 (omega arith) (omega arith)) refl
scan_at user key (f ∷ fs) (suc i) h below above = rw (below 0 (omega arith)) (
    ap suc (
      scan_at user key fs i (omega arith) (λ j k. below (suc j) (omega arith))
        (λ j k l. above (suc j) (omega arith) (omega arith))))

-- The cut of the number of files to 32 bits is without effect.
cut_length : (n : ℕ) → n < 2 ^ 31 → n % 2 ^ 32 ≡ n
cut_length n h = omega arith

-- On fewer than 2^31 files in the order of their largest keys, and where the user's comparison is an
-- order, FindFile ends, and gives the index of the first file whose largest key is not below the key,
-- or the number of files where there is none.
pub find_file-scan :
    (user : Comparator) (o : IsOrder user.compare) (files : List FileMetaData) (key : List ℕ)
    → IsRising user files
    → length files < 2 ^ 31
    → find_file user files key ≡ some (scan user key files)
unfolding find_file
find_file-scan user o files key rising h =
    let (i, found, i_le, (below, above)) =
      loop_finds user o files key rising (length files) 0 (length files) (omega arith) (omega arith)
        (omega arith) h ((λ j k. absurd (omega arith)), (λ j k l. absurd (omega arith))) in
    ap (find_file_loop user (length files) files key 0) (cut_length (length files) h)
    ∙ found
    ∙ ap some (sym (scan_at user key files i i_le below above))
