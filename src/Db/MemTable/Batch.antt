-- ===== src/Db/MemTable/Batch.antt =====
-- A write batch, inserted and read again.
use mathlib.Core.Option
use quas_db.Base.{ℕ, ◌+◌, ◌^◌, ◌<◌, ◌≤◌, ◌≡◌, refl, ap, some, List, [], ◌∷◌, length, All, arith}
use quas_db.Util.Order.{IsOrder}
use quas_db.Util.Comparator.{Comparator}
use quas_db.Util.Status.{Status, ok}
use quas_db.Db.Format.{deletion, value, make_lookup_key}
use quas_db.Db.WriteBatch.{insert_into}
use quas_db.Db.WriteBatch.Records.{Update, store, erase, rep_of}
use quas_db.Db.WriteBatch.Iterate.{Fits}
use quas_db.Db.WriteBatch.Insert.{add_all, insert_into-rep_of}
use quas_db.Db.OrderedSet.{OrderedSet, IsOrderedSet}
use quas_db.Db.MemTable.{Answer, key_compare, add, get}
use quas_db.Db.MemTable.Order.{Entry, IsEntry}
use quas_db.Db.MemTable.Get.{IsFalling, visible, fill, get-fill}

-- The entry of an update, and those of a batch on top of older ones.
abbrev pub entry_of : ℕ → Update → Entry
entry_of seq (store key val) = record { sequence = seq; type = value; user_key = key; val = val }
entry_of seq (erase key) = record { sequence = seq; type = deletion; user_key = key; val = [] }

unfoldable pub written : ℕ → List Update → List Entry → List Entry
written seq [] es = es
written seq (u ∷ us) es = written (seq + 1) us (entry_of seq u ∷ es)

abbrev pub FitsEntry : Update → Type 0
FitsEntry (store key val) = (length key + 8 < 2 ^ 32) × (length val < 2 ^ 32)
FitsEntry (erase key) = length key + 8 < 2 ^ 32

FitsEntry-Fits : (us : List Update) → All FitsEntry us → All Fits us
FitsEntry-Fits [] h = tt
FitsEntry-Fits (store key val ∷ us) ((k, v), h) = ((omega arith, v), FitsEntry-Fits us h)
FitsEntry-Fits (erase key ∷ us) (k, h) = (omega arith, FitsEntry-Fits us h)

entry_of-IsEntry : (seq : ℕ) (u : Update) → seq < 2 ^ 56 → FitsEntry u → IsEntry (entry_of seq u)
entry_of-IsEntry seq (store key val) h (k, v) = (h, k, v)
entry_of-IsEntry seq (erase key) h k = (h, k, omega arith)

below_next :
    (seq : ℕ) (es : List Entry)
    → All (λ e. e.sequence < seq) es
    → All (λ e. e.sequence < seq + 1) es
below_next seq [] h = tt
below_next seq (e ∷ es) (below, h) = (omega arith, below_next seq es h)

sequence-entry_of : (seq : ℕ) (u : Update) → (entry_of seq u).sequence ≡ seq
sequence-entry_of seq (store key val) = refl
sequence-entry_of seq (erase key) = refl

written-are :
    (us : List Update) (seq : ℕ) (es : List Entry)
    → All FitsEntry us
    → seq + length us ≤ 2 ^ 56
    → All IsEntry es
    → IsFalling es
    → All (λ e. e.sequence < seq) es
    → All IsEntry (written seq us es) × IsFalling (written seq us es)
unfolding written
written-are [] seq es fits h are f below = (are, f)
written-are (u ∷ us) seq es (fit, fits) h are f below =
    written-are us (seq + 1) (entry_of seq u ∷ es) fits (omega arith)
      (entry_of-IsEntry seq u (omega arith) fit, are) (rw (sequence-entry_of seq u) below, f)
      (omega (arith, sequence-entry_of seq u), below_next seq es below)

module _ {T : Type 0} (user : Comparator) (o : IsOrder user.compare) (table : OrderedSet (List ℕ) T)
    (Holds : T → List ℕ → Type 0) (laws : IsOrderedSet (key_compare user) table Holds) where
  add_all-fill :
      (us : List Update) (seq : ℕ) (es : List Entry)
      → add_all (add user table) (fill user o table Holds laws es) seq us
        ≡ fill user o table Holds laws (written seq us es)
  unfolding add_all written fill
  add_all-fill [] seq es = refl
  add_all-fill (store key val ∷ us) seq es =
      add_all-fill us (seq + 1) (entry_of seq (store key val) ∷ es)
  add_all-fill (erase key ∷ us) seq es = add_all-fill us (seq + 1) (entry_of seq (erase key) ∷ es)

  -- After InsertInto of a batch, which returns OK, Get answers with the newest update of the key
  -- that is not newer than the snapshot, among those of the batch and of the memtable before it.
  -- The table keeps its contract, the sequence numbers rise and stay below 2^56, and the sizes fit
  -- their 32-bit prefixes.
  pub get-insert_into :
      (es : List Entry) (seq : ℕ) (us : List Update) (key : List ℕ) (s : ℕ)
      → All IsEntry es
      → IsFalling es
      → All (λ e. e.sequence < seq) es
      → All FitsEntry us
      → length us < 2 ^ 32
      → seq + length us ≤ 2 ^ 56
      → length key + 8 < 2 ^ 32
      → s < 2 ^ 56
      → Option.map {B = Answer × Status}
          (λ r. (get user table r.0.1 (make_lookup_key key s), r.1))
          (insert_into (add user table) (rep_of seq us) (fill user o table Holds laws es))
        ≡ some (visible user key s (written seq us es), ok)
  get-insert_into es seq us key s are f below fits small room hk hs =
      let (all_are, falls) = written-are us seq es fits room are f below in
      rw
        (
          insert_into-rep_of (add user table) seq us (fill user o table Holds laws es)
              (FitsEntry-Fits us fits) small (omega arith),
          add_all-fill us seq es,
        )
        (ap (λ (a : Answer). some (a, ok))
          (get-fill user o table Holds laws (written seq us es) all_are falls key s hk hs))
