-- ===== src/Db/VersionEdit.antt =====
-- kv/db/version_edit.h and kv/db/version_edit.cpp: a change to the set of files, and its string in
-- the manifest. A field with its `has_` flag is an `Option`; an InternalKey is its string; the
-- std::set of deleted files is a list in rising order without repetition. The fields `refs` and
-- `allowed_seeks` of a file are no part of the format.
pub mod Items
pub mod RoundTrip
pub mod Total
use quas_db.Base.{
  ℕ, zero, suc, ◌+◌, ltb, ◌==◌, ◌&&◌, ◌||◌, if◌then◌else◌, Bool, Option, none, some, ◌>>=◌, List,
  [], ◌∷◌, ◌++◌, length,
}
use quas_db.Util.Coding.{
  put_varint32, put_varint64, put_length_prefixed_slice, get_varint32, get_varint64,
  get_length_prefixed_slice,
}
use quas_db.Util.Status.{Status, ok, failed, corruption, bytes}
use Prim.Native.String.{String}
use mathlib.Core.List.{foldl}

pub record FileMetaData : Type 0 where
  pub number : ℕ
  pub file_size : ℕ
  pub smallest : List ℕ
  pub largest : List ℕ

pub record VersionEdit : Type 0 where
  pub comparator : Option (List ℕ)
  pub log_number : Option ℕ
  pub prev_log_number : Option ℕ
  pub next_file_number : Option ℕ
  pub last_sequence : Option ℕ
  pub compact_pointers : List (ℕ × List ℕ)
  pub deleted_files : List (ℕ × ℕ)
  pub new_files : List (ℕ × FileMetaData)

-- Clear empties all but the compaction pointers.
unfoldable pub clear : VersionEdit → VersionEdit
clear e = record e {
  comparator = none;
  log_number = none;
  prev_log_number = none;
  next_file_number = none;
  last_sequence = none;
  deleted_files = [];
  new_files = [];
}

-- A VersionEdit as it is constructed.
abbrev pub fresh : VersionEdit
fresh = record {
  comparator = none;
  log_number = none;
  prev_log_number = none;
  next_file_number = none;
  last_sequence = none;
  compact_pointers = [];
  deleted_files = [];
  new_files = [];
}

abbrev pub pair_lt : ℕ × ℕ → ℕ × ℕ → Bool
pair_lt (l, n) (m, k) = ltb l m || (l == m && ltb n k)

-- std::set::insert on pairs.
unfoldable pub set_insert : ℕ × ℕ → List (ℕ × ℕ) → List (ℕ × ℕ)
set_insert p [] = p ∷ []
set_insert p (q ∷ s) =
    if pair_lt p q then p ∷ q ∷ s else if pair_lt q p then q ∷ set_insert p s else q ∷ s

unfoldable pub add_file : VersionEdit → ℕ → ℕ → ℕ → List ℕ → List ℕ → VersionEdit
add_file e level file file_size smallest largest = record e {
  new_files =
      e.new_files
      ++ ((
        level,
        record { number = file; file_size = file_size; smallest = smallest; largest = largest },
      )
          ∷ []);
}

unfoldable pub remove_file : VersionEdit → ℕ → ℕ → VersionEdit
remove_file e level file = record e { deleted_files = set_insert (level, file) e.deleted_files }

abbrev pub put_number : ℕ → List ℕ → Option ℕ → List ℕ
put_number tag dst none = dst
put_number tag dst (some n) = put_varint64 (put_varint32 dst tag) n

abbrev pub put_comparator : List ℕ → Option (List ℕ) → List ℕ
put_comparator dst none = dst
put_comparator dst (some name) = put_length_prefixed_slice (put_varint32 dst 1) name

abbrev pub put_pointer : List ℕ → ℕ × List ℕ → List ℕ
put_pointer dst (level, key) =
    put_length_prefixed_slice (put_varint32 (put_varint32 dst 5) level) key

abbrev pub put_deleted : List ℕ → ℕ × ℕ → List ℕ
put_deleted dst (level, number) = put_varint64 (put_varint32 (put_varint32 dst 6) level) number

abbrev pub put_new_file : List ℕ → ℕ × FileMetaData → List ℕ
put_new_file dst (level, f) =
    let numbers =
      put_varint64 (put_varint64 (put_varint32 (put_varint32 dst 7) level) f.number) f.file_size in
    put_length_prefixed_slice (put_length_prefixed_slice numbers f.smallest) f.largest

unfoldable pub encode_to : VersionEdit → List ℕ → List ℕ
encode_to e dst =
    let d1 = put_comparator dst e.comparator in
    let d2 = put_number 2 d1 e.log_number in
    let d3 = put_number 9 d2 e.prev_log_number in
    let d4 = put_number 3 d3 e.next_file_number in
    let d5 = put_number 4 d4 e.last_sequence in
    let d6 = foldl put_pointer d5 e.compact_pointers in
    let d7 = foldl put_deleted d6 e.deleted_files in foldl put_new_file d7 e.new_files

-- GetInternalKey: the string must not be empty.
unfoldable pub get_internal_key : List ℕ → Option (List ℕ × List ℕ)
get_internal_key input = do
  (str, rest) ← get_length_prefixed_slice input
  if length str == 0 then none else some (str, rest)

abbrev pub num_levels : ℕ
num_levels = 7

unfoldable pub get_level : List ℕ → Option (ℕ × List ℕ)
get_level input = do
  (v, rest) ← get_varint32 input
  if ltb v num_levels then some (v, rest) else none

-- What one round of the loop of DecodeFrom makes of a tag: the edit and the rest, or `msg`.
pub data Field : Type 0 where
  parsed : VersionEdit → List ℕ → Field
  bad : String → Field

abbrev pub or_bad : {A : Type 0} → String → Option (A × List ℕ) → (A → VersionEdit) → Field
or_bad msg none f = bad msg
or_bad msg (some (a, rest)) f = parsed (f a) rest

abbrev pub get_pointer : List ℕ → Option ((ℕ × List ℕ) × List ℕ)
get_pointer input = do
  (level, r1) ← get_level input
  (key, r2) ← get_internal_key r1
  some ((level, key), r2)

abbrev pub get_deleted : List ℕ → Option ((ℕ × ℕ) × List ℕ)
get_deleted input = do
  (level, r1) ← get_level input
  (number, r2) ← get_varint64 r1
  some ((level, number), r2)

abbrev pub get_new_file : List ℕ → Option ((ℕ × FileMetaData) × List ℕ)
get_new_file input = do
  (level, r1) ← get_level input
  (number, r2) ← get_varint64 r1
  (file_size, r3) ← get_varint64 r2
  (smallest, r4) ← get_internal_key r3
  (largest, r5) ← get_internal_key r4
  some (
    (
      level,
      record { number = number; file_size = file_size; smallest = smallest; largest = largest },
    ),
    r5,
  )

unfoldable pub decode_field : ℕ → List ℕ → VersionEdit → Field
decode_field tag input e =
    if tag == 1
    then or_bad "comparator name" (get_length_prefixed_slice input)
        (λ name. record e { comparator = some name })
    else if tag == 2
    then or_bad "log number" (get_varint64 input) (λ n. record e { log_number = some n })
    else if tag == 9
    then or_bad "previous log number" (get_varint64 input)
        (λ n. record e { prev_log_number = some n })
    else if tag == 3
    then or_bad "next file number" (get_varint64 input)
        (λ n. record e { next_file_number = some n })
    else if tag == 4
    then or_bad "last sequence number" (get_varint64 input)
        (λ n. record e { last_sequence = some n })
    else if tag == 5
    then or_bad "compaction pointer" (get_pointer input)
        (λ p. record e { compact_pointers = e.compact_pointers ++ (p ∷ []) })
    else if tag == 6
    then or_bad "deleted file" (get_deleted input)
        (λ p. record e { deleted_files = set_insert p e.deleted_files })
    else if tag == 7
    then or_bad "new-file entry" (get_new_file input)
        (λ p. record e { new_files = e.new_files ++ (p ∷ []) })
    else bad "unknown tag"

abbrev pub edit_error : String → Status
edit_error msg = failed corruption (bytes "VersionEdit") (bytes msg)

-- Each round reads a byte at least, so as much fuel as bytes is enough; `none` means that the fuel
-- ran out. The edit comes back with an error too, as far as it was filled.
unfoldable pub decode_loop : (fuel : ℕ) → List ℕ → VersionEdit → Option (VersionEdit × Status)
decode_loop zero input e = elim (get_varint32 input) [
  | none ↦ some (e, if length input == 0 then ok else edit_error "invalid tag")
  | some (tag, rest) ↦ none
]
decode_loop (suc fuel) input e = elim (get_varint32 input) [
  | none ↦ some (e, if length input == 0 then ok else edit_error "invalid tag")
  | some (tag, rest) ↦ elim (decode_field tag rest e) [
    | bad msg ↦ some (e, edit_error msg)
    | parsed e' rest' ↦ decode_loop fuel rest' e'
  ]
]

unfoldable pub decode_from : VersionEdit → List ℕ → Option (VersionEdit × Status)
decode_from e src = decode_loop (length src) src (clear e)
