-- ===== src/Tests/Db.antt =====
-- kv/db at concrete inputs.
use quas_db.Base.{ℕ, ◌+◌, ◌<◌, ◌≡◌, ◌≢◌, ◌↔◌, refl, ◌∙◌, none, some, List, [], ◌∷◌, ◌++◌, arith}
use quas_db.Util.Order.{Ordering}
use quas_db.Util.Coding.{put_fixed64, encode_fixed64}
use quas_db.Util.Slice.{slice_compare}
use quas_db.Util.Slice.Lex.{slice_compare-IsOrder}
use quas_db.Util.Comparator.{bytewise_comparator}
use quas_db.Util.Comparator.Shorten.{bytewise_comparator-IsComparator}
use quas_db.Util.Status.{ok, bytes}
use quas_db.Db.Format.{
  ValueType, deletion, value, ParsedInternalKey, append_internal_key, parse_internal_key,
  extract_user_key, pack_sequence_and_type, internal_compare, internal_shortest_separator,
  make_lookup_key, internal_key,
}
use quas_db.Db.Format.Keys.{parse_internal_key-append}
use quas_db.Db.Format.Compare.{
  key_order, internal_compare-append, internal_shortest_separator_between,
}
use quas_db.Db.Format.Lookup.{lookup_key_order}
use quas_db.Db.WriteBatch.{Handler, put, iterate, insert_into, append}
use quas_db.Db.WriteBatch.Records.{Update, store, erase, rep_of, put-rep_of, append-rep_of}
use quas_db.Db.WriteBatch.Iterate.{tell_all, iterate-ne-none, iterate-rep_of}
use quas_db.Db.WriteBatch.Insert.{add_all, insert_into-rep_of}
use quas_db.Db.VersionEdit.{VersionEdit, fresh, encode_to, decode_from}
use quas_db.Db.VersionEdit.RoundTrip.{IsEdit, decode_from-encode_to}
use quas_db.Db.VersionEdit.Total.{decode_from-ne-none}

abbrev alice : ParsedInternalKey
alice = record { user_key = bytes "alice"; sequence = 9; type = value }

abbrev alice_old : ParsedInternalKey
alice_old = record { user_key = bytes "alice"; sequence = 4; type = deletion }

abbrev bob : ParsedInternalKey
bob = record { user_key = bytes "bob"; sequence = 2; type = value }

parse_internal_key-append_example : parse_internal_key (append_internal_key [] alice) ≡ some alice
parse_internal_key-append_example = parse_internal_key-append alice (omega arith)

internal_compare-append_example :
    internal_compare bytewise_comparator
      (append_internal_key [] alice)
      (append_internal_key [] alice_old)
    ≡ key_order bytewise_comparator alice alice_old
internal_compare-append_example =
    internal_compare-append bytewise_comparator alice alice_old (omega arith) (omega arith)

newer_first :
    internal_compare bytewise_comparator
      (append_internal_key [] alice)
      (append_internal_key [] alice_old)
    ≡ Ordering.lt
newer_first = internal_compare-append_example ∙ (unfold slice_compare in refl)

alice_first :
    internal_compare bytewise_comparator
      (append_internal_key [] alice_old)
      (append_internal_key [] bob)
    ≡ Ordering.lt
alice_first =
    internal_compare-append bytewise_comparator alice_old bob (omega arith) (omega arith)
    ∙ (unfold slice_compare in refl)

users_apart :
    slice_compare
      (extract_user_key (append_internal_key [] alice))
      (extract_user_key (append_internal_key [] bob))
    ≡ Ordering.lt
unfolding slice_compare extract_user_key append_internal_key pack_sequence_and_type put_fixed64
    encode_fixed64
users_apart = refl

internal_shortest_separator_between_example :
    (internal_compare bytewise_comparator (append_internal_key [] alice) (
        internal_shortest_separator bytewise_comparator
          (append_internal_key [] alice)
          (append_internal_key [] bob))
      ≢ Ordering.gt)
    × (internal_compare bytewise_comparator
          (internal_shortest_separator bytewise_comparator
            (append_internal_key [] alice)
            (append_internal_key [] bob))
          (append_internal_key [] bob)
        ≡ Ordering.lt)
internal_shortest_separator_between_example =
    internal_shortest_separator_between bytewise_comparator bytewise_comparator-IsComparator
      (append_internal_key [] alice) (append_internal_key [] bob) users_apart

lookup_key_order_example :
    (internal_compare bytewise_comparator
        (append_internal_key [] (record { user_key = bytes "bob"; sequence = 9; type = deletion }))
        (internal_key (make_lookup_key (bytes "bob") 7))
      ≡ Ordering.lt)
    ↔ (7 < 9)
lookup_key_order_example =
    lookup_key_order bytewise_comparator slice_compare-IsOrder (bytes "bob") 7 9 deletion
      (omega arith) (omega arith)

abbrev two_updates : List Update
two_updates = store (bytes "k") (bytes "v") ∷ erase (bytes "j") ∷ []

-- A handler that notes what it is told.
abbrev notes : Handler (List Update)
notes = record { on_put = λ s k v. s ++ (store k v ∷ []); on_delete = λ s k. s ++ (erase k ∷ []) }

-- A memtable that keeps its entries in a list.
abbrev Entries : Type 0
Entries = List (ℕ × ValueType × List ℕ × List ℕ)

abbrev note_entry : Entries → ℕ → ValueType → List ℕ → List ℕ → Entries
note_entry m seq t k v = m ++ ((seq, t, k, v) ∷ [])

put-rep_of_example :
    put (rep_of 5 two_updates) (bytes "q") (bytes "w")
    ≡ rep_of 5 (two_updates ++ (store (bytes "q") (bytes "w") ∷ []))
put-rep_of_example = put-rep_of 5 two_updates (bytes "q") (bytes "w") (omega arith)

append-rep_of_example :
    append (rep_of 5 two_updates) (rep_of 8 two_updates) ≡ rep_of 5 (two_updates ++ two_updates)
append-rep_of_example = append-rep_of 5 8 two_updates two_updates (omega arith)

iterate-ne-none_example : iterate notes (7 ∷ []) [] ≢ none
iterate-ne-none_example = iterate-ne-none notes (7 ∷ []) []

iterate-rep_of_example :
    iterate notes (rep_of 5 two_updates) [] ≡ some (tell_all notes [] two_updates, ok)
iterate-rep_of_example = iterate-rep_of notes 5 two_updates [] (omega arith) (omega arith)

insert_into-rep_of_example :
    insert_into note_entry (rep_of 5 two_updates) []
    ≡ some ((5 + 2, add_all note_entry [] 5 two_updates), ok)
insert_into-rep_of_example =
    insert_into-rep_of note_entry 5 two_updates [] (omega arith) (omega arith) (omega arith)

inserted :
    add_all note_entry [] 5 two_updates
    ≡ (5, value, bytes "k", bytes "v") ∷ (6, deletion, bytes "j", []) ∷ []
unfolding add_all
inserted = refl

abbrev an_edit : VersionEdit
an_edit = record fresh {
  comparator = some (bytes "QuasDB.BytewiseComparator");
  log_number = some 12;
  next_file_number = some 300;
  last_sequence = some 77;
  compact_pointers = (1, bytes "m") ∷ [];
  deleted_files = (0, 9) ∷ (2, 4) ∷ [];
  new_files =
      (1, record { number = 15; file_size = 2000; smallest = bytes "a"; largest = bytes "z" }) ∷ [];
}

an_edit-IsEdit : IsEdit an_edit
an_edit-IsEdit = record { fields = omega arith; rising = ((refl, tt), (tt, tt)) }

decode_from-encode_to_example : decode_from fresh (encode_to an_edit []) ≡ some (an_edit, ok)
decode_from-encode_to_example = decode_from-encode_to fresh an_edit an_edit-IsEdit

decode_from-ne-none_example : decode_from fresh (7 ∷ 9 ∷ []) ≢ none
decode_from-ne-none_example = decode_from-ne-none fresh (7 ∷ 9 ∷ [])
