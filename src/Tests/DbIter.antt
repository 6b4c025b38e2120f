-- ===== src/Tests/DbIter.antt =====
-- kv/db/db_iter.cpp over the entries of a list.
use quas_db.Base.{ℕ, ◌+◌, ◌≡◌, refl, ap, none, some, List, [], ◌∷◌, All, inl, inr, arith}
use mathlib.Core.List.{reverse}
use quas_db.Util.Status.{ok, bytes}
use quas_db.Util.Comparator.{bytewise_comparator}
use quas_db.Util.Slice.Lex.{slice_compare-IsOrder}
use quas_db.Util.Iterator.{Iterator, IsIterator, Place, is_place, first_of, last_of, first_past}
use quas_db.Db.Format.{ParsedInternalKey, value, deletion, internal_compare}
use quas_db.Db.DbIter.{DbIter, new_db_iter, parse_key, db_seek, db_seek_to_first, db_seek_to_last}
use quas_db.Db.DbIter.Sample.{SameBut, parse_key-SameBut}
use quas_db.Db.DbIter.Live.{Entry}
use quas_db.Db.DbIter.Newest.{IsSorted}
use quas_db.Db.DbIter.Snapshot.{read_forward-newest, db_seek-newest, read_backward-newest}
use quas_db.Db.DbIter.Forward.{coded, FitsSample, new_db_iter-Ready}
use quas_db.Db.DbIter.Scan.{read_forward}
use quas_db.Db.DbIter.ScanBack.{read_backward}

-- The place in a list of entries is the state of an iterator.
abbrev list_iterator : List Entry → Iterator (Place Entry)
list_iterator es = record {
  valid = is_place;
  seek_to_first = λ p. first_of [] es;
  seek_to_last = λ p. last_of (reverse es) [];
  seek =
      λ p target. first_past (λ e. (coded e).0) (internal_compare bytewise_comparator) target [] es;
  next = λ p. elim p [ none ↦ none | some (before, e, after) ↦ first_of (e ∷ before) after ];
  prev = λ p. elim p [ none ↦ none | some (before, e, after) ↦ last_of before (e ∷ after) ];
  key = λ p. elim p [ none ↦ [] | some (before, e, after) ↦ (coded e).0 ];
  value = λ p. elim p [ none ↦ [] | some (before, e, after) ↦ (coded e).1 ];
  status = λ p. ok;
}

list_iterator-IsIterator :
    (es : List Entry)
    → IsIterator (list_iterator es) coded (internal_compare bytewise_comparator) (λ p. p) es
list_iterator-IsIterator es = record {
  valid_place = λ p. refl;
  key_of = λ p before e after at. ap (list_iterator es).key at;
  value_of = λ p before e after at. ap (list_iterator es).value at;
  next_place = λ p before e after at. ap (list_iterator es).next at;
  prev_place = λ p before e after at. ap (list_iterator es).prev at;
  first_place = λ p. refl;
  last_place = λ p. refl;
  seek_place = λ p target. refl;
  status_ok = λ p. refl;
}

-- Bob was deleted, and the newest entry of carol is behind the snapshot.
abbrev five : List Entry
five =
    (record { user_key = bytes "alice"; sequence = 3; type = value }, bytes "new")
    ∷ (record { user_key = bytes "alice"; sequence = 1; type = value }, bytes "old")
    ∷ (record { user_key = bytes "bob"; sequence = 2; type = deletion }, [])
    ∷ (record { user_key = bytes "carol"; sequence = 9; type = value }, bytes "later")
    ∷ (record { user_key = bytes "carol"; sequence = 4; type = value }, bytes "c4")
    ∷ []

abbrev opened : DbIter (Place Entry) ℕ
opened = new_db_iter 0 none 301

abbrev count_samples : ℕ → List ℕ → ℕ
count_samples d k = d + 1

five-IsSorted : IsSorted bytewise_comparator 5 five
unfolding quas_db.Util.Slice.slice_compare quas_db.Util.Slice.memcmp
five-IsSorted = (
  (inr (refl, omega arith), (inl refl, (inl refl, (inl refl, tt)))),
  (
    (inl refl, (inl refl, (inl refl, tt))),
    ((inl refl, (inl refl, tt)), ((inr (refl, omega arith), tt), (tt, tt))),
  ),
)

five_fit : All FitsSample five
unfolding quas_db.Db.Format.append_internal_key quas_db.Util.Coding.put_fixed64
    quas_db.Util.Coding.encode_fixed64
five_fit = (
  (omega arith, omega arith),
  (
    (omega arith, omega arith),
    ((omega arith, omega arith), ((omega arith, omega arith), ((omega arith, omega arith), tt))),
  ),
)

read_forward-newest_example :
    (st : DbIter (Place Entry) ℕ) × (db_seek_to_first
        (list_iterator five)
        count_samples
        bytewise_comparator
        5
        6
        opened
      ≡ some st)
    × (read_forward (list_iterator five) count_samples bytewise_comparator 5 6 6 st
        ≡ some ((bytes "alice", bytes "new") ∷ (bytes "carol", bytes "c4") ∷ [], ok))
unfolding quas_db.Util.Slice.slice_compare quas_db.Util.Slice.memcmp
read_forward-newest_example =
    read_forward-newest (list_iterator five) count_samples bytewise_comparator 5 (λ p. p) five
      (list_iterator-IsIterator five) slice_compare-IsOrder five-IsSorted five_fit 6 opened
      (new_db_iter-Ready 0 none 301) (omega arith)

db_seek-newest_example :
    (st : DbIter (Place Entry) ℕ) × (db_seek
        (list_iterator five)
        count_samples
        bytewise_comparator
        5
        6
        opened
        (bytes "b")
      ≡ some st)
    × (read_forward (list_iterator five) count_samples bytewise_comparator 5 6 6 st
        ≡ some ((bytes "carol", bytes "c4") ∷ [], ok))
unfolding quas_db.Util.Slice.slice_compare quas_db.Util.Slice.memcmp
db_seek-newest_example =
    db_seek-newest (list_iterator five) count_samples bytewise_comparator 5 (λ p. p) five
      (list_iterator-IsIterator five) slice_compare-IsOrder five-IsSorted five_fit 6 opened
      (bytes "b") (omega arith) (new_db_iter-Ready 0 none 301) (omega arith)

read_backward-newest_example :
    (st : DbIter (Place Entry) ℕ) × (db_seek_to_last
        (list_iterator five)
        count_samples
        bytewise_comparator
        5
        5
        opened
      ≡ some st)
    × (read_backward (list_iterator five) count_samples bytewise_comparator 5 6 5 st
        ≡ some ((bytes "carol", bytes "c4") ∷ (bytes "alice", bytes "new") ∷ [], ok))
unfolding quas_db.Util.Slice.slice_compare quas_db.Util.Slice.memcmp
read_backward-newest_example =
    read_backward-newest (list_iterator five) count_samples bytewise_comparator 5 (λ p. p) five
      (list_iterator-IsIterator five) slice_compare-IsOrder five-IsSorted five_fit 5 opened
      (new_db_iter-Ready 0 none 301) (omega arith)

abbrev at_alice : DbIter (Place Entry) ℕ
at_alice = record opened { iter = first_of [] five }

parse_key-SameBut_example :
    (st : DbIter (Place Entry) ℕ) × (parse_key (list_iterator five) count_samples at_alice
      ≡ some (st, some (record { user_key = bytes "alice"; sequence = 3; type = value })))
    × SameBut at_alice st
parse_key-SameBut_example =
    parse_key-SameBut (list_iterator five) count_samples at_alice
      (record { user_key = bytes "alice"; sequence = 3; type = value }) refl (omega arith)
      five_fit.0.1 (new_db_iter-Ready {I = Place Entry} 0 none 301).below
      (new_db_iter-Ready {I = Place Entry} 0 none 301).seeded
