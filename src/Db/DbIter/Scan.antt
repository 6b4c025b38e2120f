-- ===== src/Db/DbIter/Scan.antt =====
-- A scan forward through the database: SeekToFirst, then Next up to the end.
use quas_db.Base.{
  ℕ, zero, suc, ◌^◌, ◌<◌, ◌≤◌, ◌≡◌, refl, sym, ap, ◌∙◌, Bool, true, false, inl, inr, if◌then◌else◌,
  ◌>>=◌, Option, none, some, List, [], ◌∷◌, All, length, arith,
}
use quas_db.Util.Order.{IsOrder}
use quas_db.Util.Status.{Status, ok}
use quas_db.Util.Comparator.{Comparator}
use quas_db.Util.Iterator.{Iterator, IsIterator, Place, is_place, first_of}
use quas_db.Db.Format.{internal_compare, value, append_internal_key, extract_user_key}
use quas_db.Db.DbIter.{
  DbIter, Direction, k_forward, k_reverse, db_key, db_value, db_status, db_next, db_seek,
  db_seek_to_first, find_from, next_from,
}
use quas_db.Db.DbIter.Seek.{at_or_past, seek_place-Sought}
use quas_db.Db.DbIter.Live.{Entry, live, walk, IsByUserKey, Knows, walk-live, walk-end, Ahead-start}
use quas_db.Db.DbIter.Forward.{
  coded, FitsSample, Ready, Arrived, Arrived-carry, user_key-coded, resume-walk, find_next-walk,
}

module _ {I D : Type 0} (iterator : Iterator I) (record_read_sample : D → List ℕ → D)
    (user : Comparator) (sequence : ℕ) where
  -- A client's loop: the user keys and values up to the end, and the status there. `none` where the
  -- rounds or the fuel do not reach the end.
  unfoldable pub read_forward :
      (rounds fuel : ℕ) → DbIter I D → Option (List (List ℕ × List ℕ) × Status)
  read_forward zero fuel st = none
  read_forward (suc rounds) fuel st =
      let rest = db_next iterator record_read_sample user sequence fuel st >>= λ next.
      read_forward rounds fuel next in
      if st.is_valid
      then (rest >>= λ (es, s). some (
        (db_key iterator record_read_sample st, db_value iterator record_read_sample st) ∷ es,
        s,
      ))
      else some ([], db_status iterator record_read_sample st)

  read_forward-invalid :
      (rounds fuel : ℕ) (st : DbIter I D)
      → st.is_valid ≡ false
      → read_forward (suc rounds) fuel st ≡ some ([], db_status iterator record_read_sample st)
  unfolding read_forward
  read_forward-invalid rounds fuel st e = rw e refl

  read_forward-valid :
      (rounds fuel : ℕ) (st next : DbIter I D) (key v : List ℕ) (es : List (List ℕ × List ℕ))
      (s : Status)
      → st.is_valid ≡ true
      → db_key iterator record_read_sample st ≡ key
      → db_value iterator record_read_sample st ≡ v
      → db_next iterator record_read_sample user sequence fuel st ≡ some next
      → read_forward rounds fuel next ≡ some (es, s)
      → read_forward (suc rounds) fuel st ≡ some ((key, v) ∷ es, s)
  unfolding read_forward
  read_forward-valid rounds fuel st next key v es s valid k w moves rest =
      simp (valid, moves, rest, k, w)

  db_next-forward :
      (fuel : ℕ) (st : DbIter I D)
      → st.direction ≡ k_forward
      → db_next iterator record_read_sample user sequence fuel st
        ≡ next_from iterator record_read_sample user sequence fuel (record st {
          saved_key = extract_user_key (iterator.key st.iter);
          iter = iterator.next st.iter;
        })
  unfolding db_next
  db_next-forward fuel st d =
      ap
        (λ (d : Direction). elim d [
          | k_reverse ↦ next_from iterator record_read_sample user sequence fuel (record st {
            direction = k_forward;
            iter =
                if iterator.valid st.iter
                then iterator.next st.iter
                else iterator.seek_to_first st.iter;
          })
          | k_forward ↦ next_from iterator record_read_sample user sequence fuel (record st {
            saved_key = extract_user_key (iterator.key st.iter);
            iter = iterator.next st.iter;
          })
        ])
        d

  db_key-forward :
      (st : DbIter I D)
      → st.direction ≡ k_forward
      → db_key iterator record_read_sample st ≡ extract_user_key (iterator.key st.iter)
  db_key-forward st d =
      ap
        (λ (d : Direction). elim d [
          | k_forward ↦ extract_user_key (iterator.key st.iter)
          | k_reverse ↦ st.saved_key
        ])
        d

  db_value-forward :
      (st : DbIter I D)
      → st.direction ≡ k_forward
      → db_value iterator record_read_sample st ≡ iterator.value st.iter
  db_value-forward st d =
      ap
        (λ (d : Direction). elim d [
          | k_forward ↦ iterator.value st.iter
          | k_reverse ↦ st.saved_value
        ])
        d

  module _ (place : I → Place Entry) (es : List Entry)
      (laws : IsIterator iterator coded (internal_compare user) place es)
      (o : IsOrder user.compare) where
    db_status-ok :
        (st : DbIter I D) → st.status ≡ ok → db_status iterator record_read_sample st ≡ ok
    db_status-ok st e = simp (e, laws.status_ok st.iter)

    -- From a halt of a walk on.
    read_forward-live :
        (rounds fuel : ℕ) (before : List Entry) (skipping : Bool) (skip : List ℕ)
        (rest : List Entry) (st : DbIter I D)
        → Arrived place (walk user sequence skipping skip before rest) k_forward st
        → Knows user sequence o before skipping skip rest
        → All FitsSample rest
        → length rest < rounds
        → length rest ≤ fuel
        → read_forward rounds fuel st ≡ some (live user sequence before rest, ok)
    read_forward-live zero fuel before skipping skip rest st arrived k fits r f =
        absurd (omega arith)
    read_forward-live (suc rounds) fuel before skipping skip rest st arrived k fits r f =
        elim (walk-live user sequence o FitsSample before skipping skip rest k fits) [
          | inl (ends, empty) ↦
              read_forward-invalid rounds fuel st (arrived.is_valid ∙ ap is_place ends)
              ∙ ap (λ (q : List (List ℕ × List ℕ) × Status). some q)
                  (λ i. (sym empty i, db_status-ok st arrived.ready.fine i))
          | inr h ↦
              let at : place st.iter ≡ some (h.behind, h.entry, h.rest) = arrived.at ∙ h.found in
              let is_key = laws.key_of st.iter h.behind h.entry h.rest at in
              let user_key = ap extract_user_key is_key ∙ user_key-coded h.entry.0 in
              let marked : DbIter I D = record st {
                saved_key = extract_user_key (iterator.key st.iter);
              } in
              let (st', ends, there) =
                resume-walk iterator record_read_sample user sequence place es laws h.rest fuel true
                  h.behind h.entry marked at h.hold
                  (record {
                    seeded = arrived.ready.seeded;
                    below = arrived.ready.below;
                    fine = arrived.ready.fine;
                  })
                  (omega (arith, h.shorter, f)) in
              let walked =
                ap (λ (u : List ℕ). walk user sequence true u (h.entry ∷ h.behind) h.rest)
                  user_key in
              read_forward-valid rounds fuel st st' h.entry.0.user_key h.entry.1
                (live user sequence (h.entry ∷ h.behind) h.rest) ok
                (arrived.is_valid ∙ ap is_place h.found)
                (db_key-forward st arrived.direction ∙ user_key)
                (db_value-forward st arrived.direction
                  ∙ laws.value_of st.iter h.behind h.entry h.rest at)
                (db_next-forward fuel st arrived.direction ∙ ends)
                (read_forward-live rounds fuel (h.entry ∷ h.behind) true h.entry.0.user_key h.rest
                  st' (Arrived-carry place (sym walked) arrived.direction there) h.knows h.hold
                  (omega (arith, h.shorter, r)) (omega (arith, h.shorter, f)))
              ∙ ap (λ (l : List (List ℕ × List ℕ)). some (l, ok)) (sym h.lives)
        ]

    find_from-walk :
        (fuel : ℕ) (st : DbIter I D) (before rest : List Entry)
        → place st.iter ≡ first_of before rest
        → All FitsSample rest
        → Ready st
        → length rest < fuel
        → (st' : DbIter I D) × (find_from iterator record_read_sample user sequence fuel st
            ≡ some st')
          × Arrived place (walk user sequence false st.saved_key before rest) st.direction st'
    find_from-walk fuel st before [] at fits ready enough =
        let none_left = walk-end user sequence false st.saved_key before in
        (
          record st { is_valid = false },
          simp (laws.valid_place st.iter ∙ ap is_place at),
          record {
            at = at ∙ sym none_left;
            is_valid = ap is_place (sym none_left);
            direction = refl;
            ready = record { seeded = ready.seeded; below = ready.below; fine = ready.fine };
          },
        )
    find_from-walk fuel st before (e ∷ rest) at fits ready enough =
        let (st', ends, arrived) =
          find_next-walk iterator record_read_sample user sequence place es laws fuel false before e
            rest st at fits ready enough in
        (st', simp (laws.valid_place st.iter ∙ ap is_place at) ends, arrived)

    -- Over an iterator of internal keys that are sorted by user key, SeekToFirst and then Next to the
    -- end give the live entries in their order, and the status OK: of each user key the first entry
    -- whose sequence number the snapshot reaches, where it is a value. Sequence numbers are below
    -- 2^56, a key with its value has fewer than 2^62 bytes, the state is one that the constructor may
    -- have left, and more rounds of fuel than there are entries are enough.
    pub read_forward-seek_to_first :
        (fuel : ℕ) (st : DbIter I D)
        → IsByUserKey user sequence es
        → All FitsSample es
        → Ready st
        → length es < fuel
        → (st' : DbIter I D) × (db_seek_to_first iterator record_read_sample user sequence fuel st
            ≡ some st')
          × (read_forward (suc (length es)) fuel st' ≡ some (live user sequence [] es, ok))
    unfolding db_seek_to_first
    read_forward-seek_to_first fuel st rising fits ready enough =
        let (st', ends, arrived) =
          find_from-walk fuel
            (record st {
              direction = k_forward;
              saved_value = [];
              iter = iterator.seek_to_first st.iter;
            })
            [] es (laws.first_place st.iter) fits
            (record { seeded = ready.seeded; below = ready.below; fine = ready.fine }) enough in
        (
          st',
          ends,
          read_forward-live (suc (length es)) fuel [] false st.saved_key es st' arrived
              (record { ahead = Ahead-start user sequence st.saved_key es; rising = rising }) fits
              (omega arith) (omega (arith, enough)),
        )

    -- Under the conditions of a scan from SeekToFirst, Seek and then Next to the end give the live
    -- entries from the first whose user key is not below the target, and the status OK. The
    -- snapshot's sequence number is below 2^56, and the iterator below seeks by the internal order.
    pub read_forward-seek :
        (fuel : ℕ) (st : DbIter I D) (target : List ℕ)
        → sequence < 2 ^ 56
        → IsByUserKey user sequence es
        → All FitsSample es
        → Ready st
        → length es < fuel
        → (st' : DbIter I D) × (db_seek iterator record_read_sample user sequence fuel st target
            ≡ some st')
          × (read_forward (suc (length es)) fuel st'
              ≡ some (at_or_past user target (live user sequence [] es), ok))
    unfolding db_seek
    read_forward-seek fuel st target small rising fits ready enough =
        let r = seek_place-Sought user sequence o target [] es small tt rising fits in
        let key =
          append_internal_key []
            (record { user_key = target; sequence = sequence; type = value }) in
        let (st', ends, arrived) =
          find_from-walk fuel
            (record st {
              direction = k_forward;
              saved_value = [];
              saved_key = key;
              iter = iterator.seek st.iter key;
            })
            r.behind r.rest (laws.seek_place st.iter key ∙ r.found) r.hold
            (record { seeded = ready.seeded; below = ready.below; fine = ready.fine })
            (omega (arith, enough, r.short)) in
        (
          st',
          ends,
          read_forward-live (suc (length es)) fuel r.behind false key r.rest st' arrived
                (r.knows key) r.hold (omega (arith, r.short)) (omega (arith, enough, r.short))
              ∙ ap (λ (l : List (List ℕ × List ℕ)). some (l, ok)) (sym r.lives),
        )
