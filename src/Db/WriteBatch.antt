-- ===== src/Db/WriteBatch.antt =====
-- kv/db/write_batch.cpp: a batch of updates as one string, the same that goes into the log. `rep_`
-- is a list of bytes: eight of the sequence number, four of the count, then the records.
pub mod Records
pub mod Iterate
pub mod Insert
use quas_db.Base.{
  ℕ, zero, suc, ◌+◌, ◌-◌, ◌%◌, ◌^◌, ltb, ◌==◌, if◌then◌else◌, not, Option, none, some, List, [],
  ◌∷◌, ◌++◌, length, take, drop, replicate,
}
use quas_db.Util.Coding.{
  encode_fixed32, encode_fixed64, decode_fixed32, decode_fixed64, put_length_prefixed_slice,
  get_length_prefixed_slice,
}
use quas_db.Util.Status.{Status, ok, failed, corruption, bytes}
use quas_db.Db.Format.{ValueType, deletion, value, type_code}

abbrev pub header : ℕ
header = 12

unfoldable pub clear : List ℕ
clear = replicate header 0

-- EncodeFixed32 and EncodeFixed64 at `&rep_[at]`.
abbrev pub overwrite : ℕ → List ℕ → List ℕ → List ℕ
overwrite at src rep = take at rep ++ (src ++ drop (at + length src) rep)

unfoldable pub count : List ℕ → ℕ
count rep = decode_fixed32 (drop 8 rep)

unfoldable pub set_count : List ℕ → ℕ → List ℕ
set_count rep n = overwrite 8 (encode_fixed32 (n % 2 ^ 32)) rep

unfoldable pub sequence : List ℕ → ℕ
sequence rep = decode_fixed64 rep

unfoldable pub set_sequence : List ℕ → ℕ → List ℕ
set_sequence rep seq = overwrite 0 (encode_fixed64 seq) rep

unfoldable pub put : List ℕ → List ℕ → List ℕ → List ℕ
put rep key val =
    let counted = set_count rep (count rep + 1) in
    let tagged = counted ++ (type_code value ∷ []) in
    put_length_prefixed_slice (put_length_prefixed_slice tagged key) val

unfoldable pub delete : List ℕ → List ℕ → List ℕ
delete rep key =
    let counted = set_count rep (count rep + 1) in
    put_length_prefixed_slice (counted ++ (type_code deletion ∷ [])) key

-- The sum of the counts wraps at 2^32 here (set_count cuts it); the source adds two `int`s, and its
-- behaviour is undefined where the sum overflows one.
unfoldable pub append : List ℕ → List ℕ → List ℕ
append dst src = set_count dst (count dst + count src) ++ drop header src

-- SetContents, whose assertion that `contents` has a header is not modelled.
unfoldable pub set_contents : List ℕ → List ℕ → List ℕ
set_contents rep contents = contents

-- A Handler with its state.
pub record Handler (S : Type 0) : Type 0 where
  pub on_put : S → List ℕ → List ℕ → S
  pub on_delete : S → List ℕ → S

module _ {S : Type 0} (h : Handler S) (total : ℕ) where
  -- The loop of Iterate after the header, where `total` is the stored count. Each round takes a byte
  -- at least, so as much fuel as bytes is enough; `none` means that the fuel ran out. What the
  -- handler was told before an error stays told. The number of records found wraps at 2^32 here; it is
  -- an `int` in the source, whose behaviour from 2^31 records on is undefined.
  unfoldable pub iterate_loop : (fuel : ℕ) → List ℕ → (found : ℕ) → S → Option (S × Status)
  iterate_loop fuel [] found s = some (
    s,
    if not (found % 2 ^ 32 == total)
        then failed corruption (bytes "WriteBatch has wrong count") []
        else ok,
  )
  iterate_loop zero (tag ∷ input) found s = none
  iterate_loop (suc fuel) (tag ∷ input) found s =
      if tag == type_code value
      then elim (get_length_prefixed_slice input) [
        | none ↦ some (s, failed corruption (bytes "bad WriteBatch Put") [])
        | some (key, rest) ↦ elim (get_length_prefixed_slice rest) [
          | none ↦ some (s, failed corruption (bytes "bad WriteBatch Put") [])
          | some (val, rest') ↦ iterate_loop fuel rest' (found + 1) (h.on_put s key val)
        ]
      ]
      else if tag == type_code deletion
      then elim (get_length_prefixed_slice input) [
        | none ↦ some (s, failed corruption (bytes "bad WriteBatch Delete") [])
        | some (key, rest) ↦ iterate_loop fuel rest (found + 1) (h.on_delete s key)
      ]
      else some (s, failed corruption (bytes "unknown WriteBatch tag") [])

unfoldable pub iterate : {S : Type 0} → Handler S → List ℕ → S → Option (S × Status)
iterate h rep s =
    let input = drop header rep in
    if ltb (length rep) header
    then some (s, failed corruption (bytes "malformed WriteBatch (too small)") [])
    else iterate_loop h (count rep) (length input) input 0 s

-- MemTableInserter over the memtable's `Add`.
abbrev pub inserter : {M : Type 0} → (M → ℕ → ValueType → List ℕ → List ℕ → M) → Handler (ℕ × M)
inserter add = record {
  on_put = λ (seq, mem) key val. ((seq + 1) % 2 ^ 64, add mem seq value key val);
  on_delete = λ (seq, mem) key. ((seq + 1) % 2 ^ 64, add mem seq deletion key []);
}

unfoldable pub insert_into :
    {M : Type 0}
    → (M → ℕ → ValueType → List ℕ → List ℕ → M)
    → List ℕ
    → M
    → Option ((ℕ × M) × Status)
insert_into add rep mem = iterate (inserter add) rep (sequence rep, mem)
