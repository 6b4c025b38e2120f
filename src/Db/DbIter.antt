-- ===== src/Db/DbIter.antt =====
-- kv/db/db_iter.cpp: the iterator over the entries of a database that a snapshot sees, on top of an
-- iterator over internal keys. The loops run on fuel, and `none` means that it ran out.
pub mod Sample
pub mod Live
pub mod Newest
pub mod Forward
pub mod Seek
pub mod Scan
pub mod LiveBack
pub mod Backward
pub mod ScanBack
pub mod Snapshot
use quas_db.Base.{
  ℕ, zero, suc, ◌+◌, ◌-◌, ◌*◌, ◌%◌, ◌^◌, Bool, true, false, not, ◌&&◌, ltb, leb, if◌then◌else◌,
  Option, none, some, ◌>>=◌, List, [], length,
}
use quas_db.Util.Order.{is_lt, is_gt}
use quas_db.Util.Status.{Status, ok, is_ok, failed, corruption, bytes}
use quas_db.Util.Random.{random_seed, uniform}
use quas_db.Util.Comparator.{Comparator}
use quas_db.Util.Iterator.{Iterator}
use quas_db.Db.Format.{
  ValueType, deletion, value, ParsedInternalKey, append_internal_key, extract_user_key,
  parse_internal_key, value_type_for_seek, read_bytes_period,
}

pub data Direction : Type 0 where
  k_forward k_reverse : Direction

-- `I` is the state of the iterator below, and `D` that of the database.
pub record DbIter (I D : Type 0) : Type 0 where
  pub db : D
  pub iter : I
  pub status : Status
  pub saved_key : List ℕ
  pub saved_value : List ℕ
  pub direction : Direction
  pub is_valid : Bool
  pub rnd : ℕ
  pub bytes_until_read_sampling : ℕ

unfoldable pub new_db_iter : {I D : Type 0} → D → I → ℕ → DbIter I D
new_db_iter db iter seed =
    let (rnd, period) = uniform (random_seed seed) (2 * read_bytes_period) in
    record {
      db = db;
      iter = iter;
      status = ok;
      saved_key = [];
      saved_value = [];
      direction = k_forward;
      is_valid = false;
      rnd = rnd;
      bytes_until_read_sampling = period;
    }

-- `record_read_sample` is DBImpl::RecordReadSample.
module _ {I D : Type 0} (iterator : Iterator I) (record_read_sample : D → List ℕ → D) where
  abbrev pub db_key : DbIter I D → List ℕ
  db_key st = elim st.direction [
    | k_forward ↦ extract_user_key (iterator.key st.iter)
    | k_reverse ↦ st.saved_key
  ]

  abbrev pub db_value : DbIter I D → List ℕ
  db_value st = elim st.direction [
    | k_forward ↦ iterator.value st.iter
    | k_reverse ↦ st.saved_value
  ]

  abbrev pub db_status : DbIter I D → Status
  db_status st = if is_ok st.status then iterator.status st.iter else st.status

  -- The loop of ParseKey and the line behind it.
  unfoldable pub sample_loop : (fuel : ℕ) → List ℕ → ℕ → DbIter I D → Option (DbIter I D)
  sample_loop zero k bytes_read st = none
  sample_loop (suc fuel) k bytes_read st =
      let (rnd, period) = uniform st.rnd (2 * read_bytes_period) in
      let more = sample_loop fuel k bytes_read (record st {
        db = record_read_sample st.db k;
        rnd = rnd;
        bytes_until_read_sampling = (st.bytes_until_read_sampling + period) % 2 ^ 64;
      }) in
      if ltb st.bytes_until_read_sampling bytes_read
      then more
      else some
          (record st { bytes_until_read_sampling = st.bytes_until_read_sampling - bytes_read })

  -- The parsed key is `none` where the source returns false.
  unfoldable pub parse_key : DbIter I D → Option (DbIter I D × Option ParsedInternalKey)
  parse_key st =
      let k = iterator.key st.iter in
      let bytes_read = (length k + length (iterator.value st.iter)) % 2 ^ 64 in
      do
        sampled ← sample_loop (2 * bytes_read + 2) k bytes_read st
        some (elim (parse_internal_key k) [
          | none ↦ (
            record sampled {
              status = failed corruption (bytes "corrupted internal key in DBIter") [];
            },
            none,
          )
          | some ikey ↦ (sampled, some ikey)
        ])

  module _ (user : Comparator) (sequence : ℕ) where
    -- The body of the loop of FindNextUserEntry: whether it returns, and `skipping` from then on. Its
    -- callers all pass saved_key_ for `skip`.
    unfoldable pub visit_next :
        Bool → DbIter I D → Option ParsedInternalKey → Bool × Bool × DbIter I D
    visit_next skipping st none = (false, skipping, st)
    visit_next skipping st (some ikey) =
        if leb ikey.sequence sequence
        then elim ikey.type [
          | deletion ↦ (false, true, record st { saved_key = ikey.user_key })
          | value ↦
              if skipping && not (is_gt (user.compare ikey.user_key st.saved_key))
              then (false, skipping, st)
              else (true, skipping, record st { is_valid = true; saved_key = [] })
        ]
        else (false, skipping, st)

    unfoldable pub find_next_user_entry : (fuel : ℕ) → Bool → DbIter I D → Option (DbIter I D)
    find_next_user_entry zero skipping st = none
    find_next_user_entry (suc fuel) skipping st = do
      (parsed, ikey) ← parse_key st
      let (found, still_skipping, visited) = visit_next skipping parsed ikey
      let moved : DbIter I D = record visited { iter = iterator.next visited.iter }
      let more = find_next_user_entry fuel still_skipping moved
      if found
          then some visited
          else if iterator.valid moved.iter
          then more
          else some (record moved { saved_key = []; is_valid = false })

    -- What Next does where the iterator below has no further entry.
    abbrev pub next_from : (fuel : ℕ) → DbIter I D → Option (DbIter I D)
    next_from fuel st =
        if iterator.valid st.iter
        then find_next_user_entry fuel true st
        else some (record st { is_valid = false; saved_key = [] })

    unfoldable pub db_next : (fuel : ℕ) → DbIter I D → Option (DbIter I D)
    db_next fuel st = elim st.direction [
      | k_reverse ↦ next_from fuel (record st {
        direction = k_forward;
        iter =
            if iterator.valid st.iter
            then iterator.next st.iter
            else iterator.seek_to_first st.iter;
      })
      | k_forward ↦ next_from fuel (record st {
        saved_key = extract_user_key (iterator.key st.iter);
        iter = iterator.next st.iter;
      })
    ]

    -- The body of the loop of FindPrevUserEntry: whether it breaks off, and `value_type` then.
    unfoldable pub visit_prev :
        ValueType → DbIter I D → Option ParsedInternalKey → Bool × ValueType × DbIter I D
    visit_prev value_type st none = (false, value_type, st)
    visit_prev value_type st (some ikey) =
        let before = is_lt (user.compare ikey.user_key st.saved_key) in
        let kept : Bool × ValueType × DbIter I D = elim ikey.type [
          | deletion ↦ (false, deletion, record st { saved_key = []; saved_value = [] })
          | value ↦ (
            false,
            value,
            record st {
              saved_key = extract_user_key (iterator.key st.iter);
              saved_value = iterator.value st.iter;
            },
          )
        ] in
        if leb ikey.sequence sequence
        then elim value_type [
          | deletion ↦ kept
          | value ↦ if before then (true, value, st) else kept
        ]
        else (false, value_type, st)

    unfoldable pub find_prev_loop :
        (fuel : ℕ) → ValueType → DbIter I D → Option (ValueType × DbIter I D)
    find_prev_loop zero value_type st = none
    find_prev_loop (suc fuel) value_type st = do
      (parsed, ikey) ← parse_key st
      let (broken, later_type, visited) = visit_prev value_type parsed ikey
      let moved : DbIter I D = record visited { iter = iterator.prev visited.iter }
      let more = find_prev_loop fuel later_type moved
      if broken
          then some (later_type, visited)
          else if iterator.valid moved.iter
          then more
          else some (later_type, moved)

    abbrev pub end_prev : ValueType → DbIter I D → DbIter I D
    end_prev deletion st = record st {
      is_valid = false;
      saved_key = [];
      saved_value = [];
      direction = k_forward;
    }
    end_prev value st = record st { is_valid = true }

    unfoldable pub find_prev_user_entry : (fuel : ℕ) → DbIter I D → Option (DbIter I D)
    find_prev_user_entry fuel st =
        let looped =
          find_prev_loop fuel deletion st >>= λ (value_type, st'). some (end_prev value_type st') in
        if iterator.valid st.iter then looped else some (end_prev deletion st)

    -- The loop of Prev that leaves the entries of the current key; `none` inside means that there is
    -- no entry before them.
    unfoldable pub leave_key : (fuel : ℕ) → DbIter I D → Option (DbIter I D × Bool)
    leave_key zero st = none
    leave_key (suc fuel) st =
        let moved : DbIter I D = record st { iter = iterator.prev st.iter } in
        let more = leave_key fuel moved in
        if not (iterator.valid moved.iter)
        then some (record moved { is_valid = false; saved_key = []; saved_value = [] }, false)
        else if is_lt (user.compare (extract_user_key (iterator.key moved.iter)) moved.saved_key)
        then some (moved, true)
        else more

    unfoldable pub db_prev : (fuel : ℕ) → DbIter I D → Option (DbIter I D)
    db_prev fuel st = elim st.direction [
      | k_forward ↦ do
        (left, more) ←
            leave_key fuel (record st { saved_key = extract_user_key (iterator.key st.iter) })
        if more
            then find_prev_user_entry fuel (record left { direction = k_reverse })
            else some left
      | k_reverse ↦ find_prev_user_entry fuel st
    ]

    -- Both seeks to the front end alike.
    abbrev pub find_from : (fuel : ℕ) → DbIter I D → Option (DbIter I D)
    find_from fuel st =
        if iterator.valid st.iter
        then find_next_user_entry fuel false st
        else some (record st { is_valid = false })

    unfoldable pub db_seek : (fuel : ℕ) → DbIter I D → List ℕ → Option (DbIter I D)
    db_seek fuel st target =
        let sought =
          append_internal_key []
            (record { user_key = target; sequence = sequence; type = value_type_for_seek }) in
        find_from fuel (record st {
          direction = k_forward;
          saved_value = [];
          saved_key = sought;
          iter = iterator.seek st.iter sought;
        })

    unfoldable pub db_seek_to_first : (fuel : ℕ) → DbIter I D → Option (DbIter I D)
    db_seek_to_first fuel st = find_from fuel (record st {
      direction = k_forward;
      saved_value = [];
      iter = iterator.seek_to_first st.iter;
    })

    unfoldable pub db_seek_to_last : (fuel : ℕ) → DbIter I D → Option (DbIter I D)
    db_seek_to_last fuel st = find_prev_user_entry fuel (record st {
      direction = k_reverse;
      saved_value = [];
      iter = iterator.seek_to_last st.iter;
    })
