-- ===== src/Db/DbIter/Snapshot.antt =====
-- What a client reads of a snapshot, over an iterator whose entries are in the order of internal keys.
use quas_db.Base.{ℕ, suc, ◌^◌, ◌<◌, ◌≤◌, ◌≡◌, ◌≢◌, ap, ◌∙◌, some, List, [], ◌∷◌, All, length, arith}
use mathlib.Core.List.{reverse}
use quas_db.Util.Order.{Ordering, IsOrder}
use quas_db.Util.Status.{ok}
use quas_db.Util.Comparator.{Comparator}
use quas_db.Util.Iterator.{Iterator, IsIterator, Place}
use quas_db.Db.Format.{internal_compare}
use quas_db.Db.DbIter.{DbIter, db_seek, db_seek_to_first, db_seek_to_last}
use quas_db.Db.DbIter.Live.{Entry, IsByUserKey, All-ap}
use quas_db.Db.DbIter.Newest.{newest, Precedes, IsSorted, live-newest}
use quas_db.Db.DbIter.Forward.{coded, FitsSample, Ready}
use quas_db.Db.DbIter.Seek.{at_or_past}
use quas_db.Db.DbIter.Scan.{read_forward, read_forward-seek_to_first, read_forward-seek}
use quas_db.Db.DbIter.ScanBack.{read_backward, read_backward-seek_to_last}

IsByUserKey-IsSorted :
    (user : Comparator) (sequence : ℕ) (es : List Entry)
    → IsSorted user sequence es
    → IsByUserKey user sequence es
IsByUserKey-IsSorted user sequence [] sorted = tt
IsByUserKey-IsSorted user sequence (e ∷ es) (ahead, sorted) = (
  All-ap (Precedes user sequence e) (λ x. user.compare e.0.user_key x.0.user_key ≢ Ordering.gt) es
      (λ x. λ p. ground (arith, p)) ahead,
  IsByUserKey-IsSorted user sequence es sorted,
)

module _ {I D : Type 0} (iterator : Iterator I) (record_read_sample : D → List ℕ → D)
    (user : Comparator) (sequence : ℕ) (place : I → Place Entry) (es : List Entry)
    (laws : IsIterator iterator coded (internal_compare user) place es) (o : IsOrder user.compare)
    (sorted : IsSorted user sequence es) (fits : All FitsSample es) where
  -- SeekToFirst and then Next to the end give the user keys and values that the snapshot sees, in
  -- order, and the status OK: of the entries within the snapshot those that are values and that no
  -- newer one of the same user key shadows. The iterator below gives its entries by user key, the
  -- newer first. Sequence numbers are below 2^56, a key with its value has fewer than 2^62 bytes, the
  -- iterator's own status is OK, its byte count below 2^63 and its seed one of the generator's, and
  -- the fuel is more rounds than there are entries.
  pub read_forward-newest :
      (fuel : ℕ) (st : DbIter I D)
      → Ready st
      → length es < fuel
      → (st' : DbIter I D) × (db_seek_to_first iterator record_read_sample user sequence fuel st
          ≡ some st')
        × (read_forward iterator record_read_sample user sequence (suc (length es)) fuel st'
            ≡ some (newest user sequence es es, ok))
  read_forward-newest fuel st ready enough =
      let (st', seeks, reads) =
        read_forward-seek_to_first iterator record_read_sample user sequence place es laws o fuel st
          (IsByUserKey-IsSorted user sequence es sorted) fits ready enough in
      (
        st',
        seeks,
        reads
            ∙ ap (λ (l : List (List ℕ × List ℕ)). some (l, ok))
                (live-newest user sequence o es sorted),
      )

  -- Seek and then Next to the end give the user keys and values that the snapshot sees, from the
  -- first user key on that is not below the target, and the status OK: of the entries within the
  -- snapshot those that are values and that no newer one of the same user key shadows. The iterator
  -- below gives its entries by user key, the newer first, and seeks by the internal order. Sequence
  -- numbers are below 2^56, that of the snapshot too, a key with its value has fewer than 2^62 bytes,
  -- the iterator's own status is OK, its byte count below 2^63 and its seed one of the generator's,
  -- and the fuel is more rounds than there are entries.
  pub db_seek-newest :
      (fuel : ℕ) (st : DbIter I D) (target : List ℕ)
      → sequence < 2 ^ 56
      → Ready st
      → length es < fuel
      → (st' : DbIter I D) × (db_seek iterator record_read_sample user sequence fuel st target
          ≡ some st')
        × (read_forward iterator record_read_sample user sequence (suc (length es)) fuel st'
            ≡ some (at_or_past user target (newest user sequence es es), ok))
  db_seek-newest fuel st target small ready enough =
      let (st', seeks, reads) =
        read_forward-seek iterator record_read_sample user sequence place es laws o fuel st target
          small (IsByUserKey-IsSorted user sequence es sorted) fits ready enough in
      (
        st',
        seeks,
        reads
            ∙ ap (λ (l : List (List ℕ × List ℕ)). some (at_or_past user target l, ok))
                (live-newest user sequence o es sorted),
      )

  -- SeekToLast and then Prev to the front give the user keys and values that the snapshot sees, in
  -- reverse order, and the status OK: of the entries within the snapshot those that are values and
  -- that no newer one of the same user key shadows. The iterator below gives its entries by user key,
  -- the newer first. Sequence numbers are below 2^56, a key with its value has fewer than 2^62 bytes,
  -- the iterator's own status is OK, its byte count below 2^63 and its seed one of the generator's,
  -- and the fuel is as many rounds as there are entries, or more.
  pub read_backward-newest :
      (fuel : ℕ) (st : DbIter I D)
      → Ready st
      → length es ≤ fuel
      → (st' : DbIter I D) × (db_seek_to_last iterator record_read_sample user sequence fuel st
          ≡ some st')
        × (read_backward iterator record_read_sample user sequence (suc (length es)) fuel st'
            ≡ some (reverse (newest user sequence es es), ok))
  read_backward-newest fuel st ready enough =
      let (st', seeks, reads) =
        read_backward-seek_to_last iterator record_read_sample user sequence place es laws o fuel st
          (IsByUserKey-IsSorted user sequence es sorted) fits ready enough in
      (
        st',
        seeks,
        reads
            ∙ ap (λ (l : List (List ℕ × List ℕ)). some (reverse l, ok))
                (live-newest user sequence o es sorted),
      )
