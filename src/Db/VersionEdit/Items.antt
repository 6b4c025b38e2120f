-- ===== src/Db/VersionEdit/Items.antt =====
-- An encoded edit is a sequence of items, each a tag and a body.
use quas_db.Base.{
  ℕ, ◌^◌, ◌<◌, ◌≡◌, some, List, [], ◌∷◌, ◌++◌, length, append_assoc, ◌==◌, false, lt→ltb, arith,
}
use quas_db.Util.Coding.{encode_varint32, encode_varint64, put_length_prefixed_slice, get_varint32}
use quas_db.Util.Coding.RoundTrip.{
  get_varint32-encode_varint32, get_varint64-encode_varint64, get_length_prefixed_slice-put,
}
use quas_db.Db.VersionEdit.{
  FileMetaData, VersionEdit, set_insert, get_internal_key, get_level, parsed, decode_field,
  num_levels,
}

pub data Item : Type 0 where
  named : List ℕ → Item
  log prev next last : ℕ → Item
  pointer : ℕ → List ℕ → Item
  deleted : ℕ → ℕ → Item
  added : ℕ → FileMetaData → Item

abbrev pub tag_of : Item → ℕ
tag_of (named name) = 1
tag_of (log n) = 2
tag_of (prev n) = 9
tag_of (next n) = 3
tag_of (last n) = 4
tag_of (pointer level key) = 5
tag_of (deleted level n) = 6
tag_of (added level f) = 7

abbrev pub body_of : Item → List ℕ
body_of (named name) = put_length_prefixed_slice [] name
body_of (log n) = encode_varint64 n
body_of (prev n) = encode_varint64 n
body_of (next n) = encode_varint64 n
body_of (last n) = encode_varint64 n
body_of (pointer level key) = encode_varint32 level ++ put_length_prefixed_slice [] key
body_of (deleted level n) = encode_varint32 level ++ encode_varint64 n
body_of (added level f) =
    encode_varint32 level
    ++ (encode_varint64 f.number
        ++ (encode_varint64 f.file_size
            ++ (put_length_prefixed_slice [] f.smallest ++ put_length_prefixed_slice [] f.largest)))

abbrev pub item_bytes : Item → List ℕ
item_bytes i = encode_varint32 (tag_of i) ++ body_of i

abbrev pub apply : VersionEdit → Item → VersionEdit
apply e (named name) = record e { comparator = some name }
apply e (log n) = record e { log_number = some n }
apply e (prev n) = record e { prev_log_number = some n }
apply e (next n) = record e { next_file_number = some n }
apply e (last n) = record e { last_sequence = some n }
apply e (pointer level key) = record e {
  compact_pointers = e.compact_pointers ++ ((level, key) ∷ []);
}
apply e (deleted level n) = record e { deleted_files = set_insert (level, n) e.deleted_files }
apply e (added level f) = record e { new_files = e.new_files ++ ((level, f) ∷ []) }

-- A nonempty internal key whose length fits its prefix.
abbrev pub IsKey : List ℕ → Type 0
IsKey k = (0 < length k) × (length k < 2 ^ 32)

abbrev pub IsFile : FileMetaData → Type 0
IsFile f = (f.number < 2 ^ 64) × (f.file_size < 2 ^ 64) × IsKey f.smallest × IsKey f.largest

abbrev pub IsItem : Item → Type 0
IsItem (named name) = length name < 2 ^ 32
IsItem (log n) = n < 2 ^ 64
IsItem (prev n) = n < 2 ^ 64
IsItem (next n) = n < 2 ^ 64
IsItem (last n) = n < 2 ^ 64
IsItem (pointer level key) = (level < num_levels) × IsKey key
IsItem (deleted level n) = (level < num_levels) × (n < 2 ^ 64)
IsItem (added level f) = (level < num_levels) × IsFile f

get_internal_key-put :
    (k rest : List ℕ)
    → IsKey k
    → get_internal_key (put_length_prefixed_slice [] k ++ rest) ≡ some (k, rest)
unfolding get_internal_key
get_internal_key-put k rest (pos, fits) = rw (get_length_prefixed_slice-put k rest fits, nonempty)
  where
    nonempty : (length k == 0) ≡ false
    nonempty = ground arith

get_level-encode :
    (level : ℕ) (rest : List ℕ)
    → level < num_levels
    → get_level (encode_varint32 level ++ rest) ≡ some (level, rest)
unfolding get_level
get_level-encode level rest h =
    rw (get_varint32-encode_varint32 level rest (omega arith), lt→ltb level num_levels h)

-- Decoding the body behind its tag applies the item and leaves what follows.
pub decode_field-item :
    (i : Item) (rest : List ℕ) (e : VersionEdit)
    → IsItem i
    → decode_field (tag_of i) (body_of i ++ rest) e ≡ parsed (apply e i) rest
unfolding decode_field
decode_field-item (named name) rest e h = rw (get_length_prefixed_slice-put name rest h)
decode_field-item (log n) rest e h = rw (get_varint64-encode_varint64 n rest h)
decode_field-item (prev n) rest e h = rw (get_varint64-encode_varint64 n rest h)
decode_field-item (next n) rest e h = rw (get_varint64-encode_varint64 n rest h)
decode_field-item (last n) rest e h = rw (get_varint64-encode_varint64 n rest h)
decode_field-item (pointer level key) rest e (hl, hk) = rw (
  append_assoc (encode_varint32 level) (put_length_prefixed_slice [] key) rest,
  get_level-encode level (put_length_prefixed_slice [] key ++ rest) hl,
  get_internal_key-put key rest hk,
)
decode_field-item (deleted level n) rest e (hl, hn) = rw (
  append_assoc (encode_varint32 level) (encode_varint64 n) rest,
  get_level-encode level (encode_varint64 n ++ rest) hl,
  get_varint64-encode_varint64 n rest hn,
)
decode_field-item (added level f) rest e (hl, (hn, hs, ka, kb)) =
    let r4 = put_length_prefixed_slice [] f.largest ++ rest in
    let r3 = put_length_prefixed_slice [] f.smallest ++ r4 in
    let r2 = encode_varint64 f.file_size ++ r3 in
    let r1 = encode_varint64 f.number ++ r2 in
    rw (
      regroup,
      get_level-encode level r1 hl,
      get_varint64-encode_varint64 f.number r2 hn,
      get_varint64-encode_varint64 f.file_size r3 hs,
      get_internal_key-put f.smallest r4 ka,
      get_internal_key-put f.largest rest kb,
    )
  where
    regroup :
        body_of (added level f) ++ rest
        ≡ encode_varint32 level
          ++ (encode_varint64 f.number
              ++ (encode_varint64 f.file_size
                  ++ (put_length_prefixed_slice [] f.smallest
                      ++ (put_length_prefixed_slice [] f.largest ++ rest))))
    regroup = simp append_assoc

pub get_varint32-item :
    (i : Item) (rest : List ℕ)
    → get_varint32 (item_bytes i ++ rest) ≡ some (tag_of i, body_of i ++ rest)
get_varint32-item i rest =
    rw (append_assoc (encode_varint32 (tag_of i)) (body_of i) rest)
      (get_varint32-encode_varint32 (tag_of i) (body_of i ++ rest) (small i))
  where
    small : (i : Item) → tag_of i < 2 ^ 32
    small (named name) = omega arith
    small _ = omega arith
