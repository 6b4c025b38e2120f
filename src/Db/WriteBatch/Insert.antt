-- ===== src/Db/WriteBatch/Insert.antt =====
-- InsertInto gives the updates of a batch to a memtable under consecutive sequence numbers.
use quas_db.Base.{ℕ, ◌+◌, ◌%◌, ◌^◌, ◌<◌, ◌≡◌, ap, ◌∙◌, some, List, [], ◌∷◌, length, All, arith}
use quas_db.Util.Status.{ok}
use quas_db.Db.Format.{ValueType, deletion, value}
use quas_db.Db.WriteBatch.{inserter, insert_into}
use quas_db.Db.WriteBatch.Records.{Update, store, erase, rep_of, sequence-rep_of}
use quas_db.Db.WriteBatch.Iterate.{Fits, tell_all, iterate-rep_of}

no_wrap : (seq : ℕ) → seq + 1 < 2 ^ 64 → (seq + 1) % 2 ^ 64 ≡ seq + 1
no_wrap seq h = omega arith

module _ {M : Type 0} (add : M → ℕ → ValueType → List ℕ → List ℕ → M) where
  -- The memtable after the updates, the first of which has the sequence number `seq`.
  unfoldable pub add_all : M → ℕ → List Update → M
  add_all mem seq [] = mem
  add_all mem seq (store key val ∷ us) = add_all (add mem seq value key val) (seq + 1) us
  add_all mem seq (erase key ∷ us) = add_all (add mem seq deletion key []) (seq + 1) us

  tell_all-add_all :
      (us : List Update) (seq : ℕ) (mem : M)
      → seq + length us < 2 ^ 64
      → tell_all (inserter add) (seq, mem) us ≡ (seq + length us, add_all mem seq us)
  unfolding add_all tell_all
  tell_all-add_all [] seq mem h = ground arith
  tell_all-add_all (store key val ∷ us) seq mem h =
      rw (no_wrap seq (omega arith)) (
        rw (tell_all-add_all us (seq + 1) (add mem seq value key val) (omega arith)) (ground arith))
  tell_all-add_all (erase key ∷ us) seq mem h = rw (no_wrap seq (omega arith)) (
      rw (tell_all-add_all us (seq + 1) (add mem seq deletion key []) (omega arith)) (ground arith))

  -- Inserting a batch adds each update to the memtable under its own sequence number, counted up from
  -- the batch's, deletions with an empty value, and returns OK, where the keys and values have
  -- lengths below 2^32, the updates are fewer than 2^32, and the numbers stay below 2^64.
  pub insert_into-rep_of :
      (seq : ℕ) (us : List Update) (mem : M)
      → All Fits us
      → length us < 2 ^ 32
      → seq + length us < 2 ^ 64
      → insert_into add (rep_of seq us) mem ≡ some ((seq + length us, add_all mem seq us), ok)
  unfolding insert_into
  insert_into-rep_of seq us mem hs small fits = rw (sequence-rep_of seq us (omega arith)) (
      iterate-rep_of (inserter add) seq us (seq, mem) hs small
      ∙ ap (λ r. some (r, ok)) (tell_all-add_all us seq mem fits))
