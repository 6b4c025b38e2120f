-- ===== src/Tests/MemTable.antt =====
-- kv/db/memtable.cpp at concrete entries.
use quas_db.Base.{ℕ, ◌≡◌, refl, some, List, [], ◌∷◌, arith}
use quas_db.Util.Order.{IsOrder}
use quas_db.Util.Slice.Lex.{slice_compare-IsOrder}
use quas_db.Util.Comparator.{bytewise_comparator}
use quas_db.Util.Status.{Status, ok, bytes}
use quas_db.Db.Format.{deletion, value, make_lookup_key}
use quas_db.Db.WriteBatch.{insert_into}
use quas_db.Db.WriteBatch.Records.{Update, store, erase, rep_of}
use quas_db.Db.OrderedSet.{OrderedSet, IsOrderedSet}
use quas_db.Db.MemTable.{Answer, key_compare, add, get}
use quas_db.Db.MemTable.Order.{Entry, key_compare-IsOrder}
use quas_db.Db.MemTable.Get.{visible, fill, get-fill}
use quas_db.Db.MemTable.Batch.{written, get-insert_into}
use quas_db.Db.SkipList.Set.{Shaped, Holds, skip_list, skip_list-IsOrderedSet}
use mathlib.Core.Option

entry_order : IsOrder (key_compare bytewise_comparator)
entry_order = key_compare-IsOrder bytewise_comparator slice_compare-IsOrder

abbrev table : OrderedSet (List ℕ) (Shaped (key_compare bytewise_comparator) entry_order)
table = skip_list (key_compare bytewise_comparator) entry_order []

abbrev HoldsEntry : Shaped (key_compare bytewise_comparator) entry_order → List ℕ → Type 0
HoldsEntry = Holds (key_compare bytewise_comparator) entry_order

table_keeps : IsOrderedSet (key_compare bytewise_comparator) table HoldsEntry
table_keeps = skip_list-IsOrderedSet (key_compare bytewise_comparator) entry_order []

-- "a" is stored, then erased.
abbrev entries : List Entry
entries =
    record { sequence = 5; type = deletion; user_key = bytes "a"; val = [] }
    ∷ record { sequence = 3; type = value; user_key = bytes "a"; val = bytes "one" }
    ∷ []

get_old : visible bytewise_comparator (bytes "a") 4 entries ≡ Answer.found (bytes "one")
unfolding visible quas_db.Util.Slice.slice_compare
get_old = refl

get-fill_example :
    get bytewise_comparator table
      (fill bytewise_comparator slice_compare-IsOrder table HoldsEntry table_keeps entries)
      (make_lookup_key (bytes "a") 4)
    ≡ visible bytewise_comparator (bytes "a") 4 entries
get-fill_example =
    get-fill bytewise_comparator slice_compare-IsOrder table HoldsEntry table_keeps entries
      ((omega arith, omega arith, omega arith), ((omega arith, omega arith, omega arith), tt))
      (((omega arith), tt), (tt, tt)) (bytes "a") 4 (omega arith) (omega arith)

abbrev updates : List Update
updates = store (bytes "b") (bytes "two") ∷ erase (bytes "a") ∷ []

get-insert_into_example :
    Option.map {B = Answer × Status}
      (λ r. (get bytewise_comparator table r.0.1 (make_lookup_key (bytes "b") 9), r.1))
      (insert_into
        (add bytewise_comparator table)
        (rep_of 6 updates)
        (fill bytewise_comparator slice_compare-IsOrder table HoldsEntry table_keeps entries))
    ≡ some (visible bytewise_comparator (bytes "b") 9 (written 6 updates entries), ok)
get-insert_into_example =
    get-insert_into bytewise_comparator slice_compare-IsOrder table HoldsEntry table_keeps entries 6
      updates (bytes "b") 9
      ((omega arith, omega arith, omega arith), ((omega arith, omega arith, omega arith), tt))
      (((omega arith), tt), (tt, tt)) ((omega arith), ((omega arith), tt))
      ((omega arith, omega arith), ((omega arith), tt)) (omega arith) (omega arith) (omega arith)
      (omega arith)
