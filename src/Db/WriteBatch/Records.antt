-- ===== src/Db/WriteBatch/Records.antt =====
-- What a batch means: the list of its updates. Each method of WriteBatch is the operation on that
-- list, carried out on the string.
use quas_db.Base.{
  ℕ, ◌+◌, ◌%◌, ◌^◌, ◌≤◌, ◌<◌, ◌≡◌, refl, sym, ap, ◌∙◌, List, [], ◌∷◌, ◌++◌, length, drop,
  length-append, append_assoc, append-nil, drop_front, arith,
}
use quas_db.Util.Coding.{
  encode_fixed32, encode_fixed64, decode_fixed32, encode_varint32, put_varint32,
  put_length_prefixed_slice,
}
use quas_db.Util.Coding.Fixed.{
  decode_fixed32-encode_fixed32, decode_fixed64-encode_fixed64, length-encode_fixed64,
}
use quas_db.Db.WriteBatch.{
  header, clear, count, set_count, sequence, set_sequence, put, delete, append,
}

pub data Update : Type 0 where
  store : List ℕ → List ℕ → Update
  erase : List ℕ → Update

abbrev pub record_bytes : Update → List ℕ
record_bytes (store key val) =
    1 ∷ (put_length_prefixed_slice [] key ++ put_length_prefixed_slice [] val)
record_bytes (erase key) = 0 ∷ put_length_prefixed_slice [] key

unfoldable pub records : List Update → List ℕ
records [] = []
records (u ∷ us) = record_bytes u ++ records us

-- The string of a batch with sequence number `seq` and the updates `us`.
pub rep_of : ℕ → List Update → List ℕ
rep_of seq us = encode_fixed64 seq ++ (encode_fixed32 (length us) ++ records us)

pub records-append : (us vs : List Update) → records (us ++ vs) ≡ records us ++ records vs
unfolding records
records-append [] vs = refl
records-append (u ∷ us) vs =
    ap (λ r. record_bytes u ++ r) (records-append us vs)
    ∙ sym (append_assoc (record_bytes u) (records us) (records vs))

pub put_length_prefixed_slice-append :
    (dst val : List ℕ) → put_length_prefixed_slice dst val ≡ dst ++ put_length_prefixed_slice [] val
unfolding put_length_prefixed_slice put_varint32
put_length_prefixed_slice-append dst val =
    append_assoc dst (encode_varint32 (length val % 2 ^ 32)) val

-- The header's parts in any string of this form.
module _ (seq n : ℕ) (tail : List ℕ) where
  abbrev framed : List ℕ
  framed = encode_fixed64 seq ++ (encode_fixed32 n ++ tail)

  drop_sequence :
      drop 8 (encode_fixed64 seq ++ (encode_fixed32 n ++ tail)) ≡ encode_fixed32 n ++ tail
  drop_sequence = drop_front 8 (encode_fixed64 seq) _ (omega (arith, length-encode_fixed64 seq))

  pub drop-header : drop header (encode_fixed64 seq ++ (encode_fixed32 n ++ tail)) ≡ tail
  unfolding encode_fixed64 encode_fixed32
  drop-header = refl

  pub count_framed : n < 2 ^ 32 → count (encode_fixed64 seq ++ (encode_fixed32 n ++ tail)) ≡ n
  unfolding count
  count_framed h = ap decode_fixed32 drop_sequence ∙ decode_fixed32-encode_fixed32 n tail h

  pub sequence_framed :
      seq < 2 ^ 64 → sequence (encode_fixed64 seq ++ (encode_fixed32 n ++ tail)) ≡ seq
  unfolding sequence
  sequence_framed h = decode_fixed64-encode_fixed64 seq (encode_fixed32 n ++ tail) h

  pub set_count_framed :
      (m : ℕ)
      → m < 2 ^ 32
      → set_count (encode_fixed64 seq ++ (encode_fixed32 n ++ tail)) m
        ≡ encode_fixed64 seq ++ (encode_fixed32 m ++ tail)
  unfolding set_count encode_fixed64 encode_fixed32
  set_count_framed m h =
      let small : m % 2 ^ 32 ≡ m = omega arith in
      ap (λ k. encode_fixed64 seq ++ (encode_fixed32 k ++ tail)) small

  pub set_sequence_framed :
      (s : ℕ)
      → set_sequence (encode_fixed64 seq ++ (encode_fixed32 n ++ tail)) s
        ≡ encode_fixed64 s ++ (encode_fixed32 n ++ tail)
  unfolding set_sequence encode_fixed64
  set_sequence_framed s = refl

-- One more update at the end of any framed string whose count is `n`.
module _ (seq n : ℕ) (tail : List ℕ) (small : n + 1 < 2 ^ 32) where
  counted :
      set_count
        (encode_fixed64 seq ++ (encode_fixed32 n ++ tail))
        (count (encode_fixed64 seq ++ (encode_fixed32 n ++ tail)) + 1)
      ≡ encode_fixed64 seq ++ (encode_fixed32 (n + 1) ++ tail)
  counted = rw (count_framed seq n tail (omega arith)) (set_count_framed seq n tail (n + 1) small)

  regroup :
      (more : List ℕ)
      → (encode_fixed64 seq ++ (encode_fixed32 (n + 1) ++ tail)) ++ more
        ≡ encode_fixed64 seq ++ (encode_fixed32 (n + 1) ++ (tail ++ more))
  regroup more = simp append_assoc

  put_framed :
      (key val : List ℕ)
      → put (encode_fixed64 seq ++ (encode_fixed32 n ++ tail)) key val
        ≡ encode_fixed64 seq ++ (encode_fixed32 (n + 1) ++ (tail ++ record_bytes (store key val)))
  unfolding put
  put_framed key val =
      let start = encode_fixed64 seq ++ (encode_fixed32 (n + 1) ++ tail) in
      let first = (start ++ (1 ∷ [])) in
      rw counted (
        put_length_prefixed_slice-append (put_length_prefixed_slice first key) val
        ∙ ap (λ r. r ++ put_length_prefixed_slice [] val)
            (put_length_prefixed_slice-append first key)
        ∙ simp append_assoc)

  delete_framed :
      (key : List ℕ)
      → delete (encode_fixed64 seq ++ (encode_fixed32 n ++ tail)) key
        ≡ encode_fixed64 seq ++ (encode_fixed32 (n + 1) ++ (tail ++ record_bytes (erase key)))
  unfolding delete
  delete_framed key =
      let start = encode_fixed64 seq ++ (encode_fixed32 (n + 1) ++ tail) in
      rw counted (put_length_prefixed_slice-append (start ++ (0 ∷ [])) key ∙ simp append_assoc)

-- The frame of a batch with one more update.
one_more :
    (seq : ℕ) (us : List Update) (u : Update)
    → encode_fixed64 seq ++ (encode_fixed32 (length us + 1) ++ (records us ++ record_bytes u))
      ≡ rep_of seq (us ++ (u ∷ []))
unfolding rep_of
one_more seq us u = rw (records-append us (u ∷ []), ends u, longer us u)
  where
    ends : (u : Update) → records (u ∷ []) ≡ record_bytes u
    ends u = unfold records in append-nil (record_bytes u)

    longer : (us : List Update) (u : Update) → length (us ++ (u ∷ [])) ≡ length us + 1
    longer us u = length-append us (u ∷ [])

pub rep_of-framed :
    (seq : ℕ) (us : List Update)
    → rep_of seq us ≡ encode_fixed64 seq ++ (encode_fixed32 (length us) ++ records us)
unfolding rep_of
rep_of-framed seq us = refl

-- Clear leaves the empty batch.
pub clear-rep_of : clear ≡ rep_of 0 []
unfolding clear rep_of records encode_fixed64 encode_fixed32
clear-rep_of = refl

-- Put adds its update at the end, and keeps the sequence number and the updates before it, where the
-- new count is an `int`.
pub put-rep_of :
    (seq : ℕ) (us : List Update) (key val : List ℕ)
    → length us + 1 < 2 ^ 31
    → put (rep_of seq us) key val ≡ rep_of seq (us ++ (store key val ∷ []))
put-rep_of seq us key val h =
    ap (λ r. put r key val) (rep_of-framed seq us)
    ∙ put_framed seq (length us) (records us) (omega arith) key val
    ∙ one_more seq us (store key val)

-- Delete adds its update at the end, and keeps the sequence number and the updates before it, where
-- the count still fits 32 bits.
pub delete-rep_of :
    (seq : ℕ) (us : List Update) (key : List ℕ)
    → length us + 1 < 2 ^ 32
    → delete (rep_of seq us) key ≡ rep_of seq (us ++ (erase key ∷ []))
delete-rep_of seq us key h =
    ap (λ r. delete r key) (rep_of-framed seq us)
    ∙ delete_framed seq (length us) (records us) h key
    ∙ one_more seq us (erase key)

-- Append puts the updates of the source behind those of the destination, whose sequence number stays,
-- where the count still fits 32 bits.
pub append-rep_of :
    (seq seq' : ℕ) (us vs : List Update)
    → length us + length vs < 2 ^ 32
    → append (rep_of seq us) (rep_of seq' vs) ≡ rep_of seq (us ++ vs)
unfolding append rep_of
append-rep_of seq seq' us vs h =
    rw
      (
        count_framed seq (length us) (records us) (omega arith),
        count_framed seq' (length vs) (records vs) (omega arith),
        set_count_framed seq (length us) (records us) (length us + length vs) h,
        drop-header seq' (length vs) (records vs),
        length-append us vs,
        records-append us vs,
      )
      (simp append_assoc)

-- SetSequence changes the sequence number alone.
pub set_sequence-rep_of :
    (seq s : ℕ) (us : List Update) → set_sequence (rep_of seq us) s ≡ rep_of s us
unfolding rep_of
set_sequence-rep_of seq s us = set_sequence_framed seq (length us) (records us) s

pub drop-header-rep_of : (seq : ℕ) (us : List Update) → drop header (rep_of seq us) ≡ records us
unfolding rep_of
drop-header-rep_of seq us = drop-header seq (length us) (records us)

pub count-rep_of :
    (seq : ℕ) (us : List Update) → length us < 2 ^ 32 → count (rep_of seq us) ≡ length us
unfolding rep_of
count-rep_of seq us h = count_framed seq (length us) (records us) h

pub sequence-rep_of : (seq : ℕ) (us : List Update) → seq < 2 ^ 64 → sequence (rep_of seq us) ≡ seq
unfolding rep_of
sequence-rep_of seq us h = sequence_framed seq (length us) (records us) h

pub length-rep_of : (seq : ℕ) (us : List Update) → header ≤ length (rep_of seq us)
unfolding rep_of encode_fixed64 encode_fixed32
length-rep_of seq us = omega arith
