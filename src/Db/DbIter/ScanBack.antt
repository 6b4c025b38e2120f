-- ===== src/Db/DbIter/ScanBack.antt =====
-- A scan backward through the database: SeekToLast, then Prev up to the front.
use quas_db.Base.{
  ℕ, zero, suc, ◌+◌, ◌<◌, ◌≤◌, ◌≡◌, ◌≢◌, refl, sym, ap, ◌∙◌, true, false, Bool-cases, inl, inr,
  if◌then◌else◌, ◌>>=◌, Option, none, some, List, [], ◌∷◌, All, length, arith,
}
use mathlib.Core.Path.{subst}
use mathlib.Core.List.{reverse, reverse_aux}
use quas_db.Util.Order.{Ordering, IsOrder}
use quas_db.Util.Status.{Status, ok}
use quas_db.Util.Comparator.{Comparator}
use quas_db.Util.Iterator.{Iterator, IsIterator, Place}
use quas_db.Db.Format.{deletion, internal_compare, extract_user_key}
use quas_db.Db.DbIter.{
  DbIter, Direction, k_reverse, db_key, db_value, db_status, db_prev, db_seek_to_last,
  find_prev_user_entry, k_forward, leave_key,
}
use quas_db.Db.DbIter.Live.{Entry, live, is_live, IsByUserKey, All-zip}
use quas_db.Db.DbIter.LiveBack.{live_back, reverse-live, walk_back, walk_back-live, IsFalling}
use quas_db.Db.DbIter.Forward.{coded, FitsSample, Ready}
use quas_db.Db.DbIter.Backward.{
  holding, Settled, is_value, deletion-ne-value, find_prev_user_entry-walk,
}

length-reverse_aux :
    {A : Type 0} (xs ys : List A) → length (reverse_aux xs ys) ≡ length xs + length ys
length-reverse_aux [] ys = omega arith
length-reverse_aux (x ∷ xs) ys = omega (arith, length-reverse_aux xs (x ∷ ys))

All-each : {A : Type 0} (P : A → Type 0) (xs : List A) → ((x : A) → P x) → All P xs
All-each P [] f = tt
All-each P (x ∷ xs) f = (f x, All-each P xs f)

length-live_back :
    (user : Comparator) (sequence : ℕ) (before : List Entry)
    → length (live_back user sequence before) ≤ length before
length-live_back user sequence [] = omega arith
length-live_back user sequence (e ∷ before) = elim (Bool-cases (is_live user sequence before e.0)) [
  | inl alive ↦ rw alive (omega (arith, length-live_back user sequence before))
  | inr dead ↦ rw dead (omega (arith, length-live_back user sequence before))
]

module _ {I D : Type 0} (iterator : Iterator I) (record_read_sample : D → List ℕ → D)
    (user : Comparator) (sequence : ℕ) where
  -- A client's loop: the user keys and values back to the front, and the status there. `none` where
  -- the rounds or the fuel do not reach the front.
  unfoldable pub read_backward :
      (rounds fuel : ℕ) → DbIter I D → Option (List (List ℕ × List ℕ) × Status)
  read_backward zero fuel st = none
  read_backward (suc rounds) fuel st =
      let rest = db_prev iterator record_read_sample user sequence fuel st >>= λ prev.
      read_backward rounds fuel prev in
      if st.is_valid
      then (rest >>= λ (es, s). some (
        (db_key iterator record_read_sample st, db_value iterator record_read_sample st) ∷ es,
        s,
      ))
      else some ([], db_status iterator record_read_sample st)

  read_backward-invalid :
      (rounds fuel : ℕ) (st : DbIter I D)
      → st.is_valid ≡ false
      → read_backward (suc rounds) fuel st ≡ some ([], db_status iterator record_read_sample st)
  unfolding read_backward
  read_backward-invalid rounds fuel st e = rw e refl

  read_backward-valid :
      (rounds fuel : ℕ) (st prev : DbIter I D) (key v : List ℕ) (es : List (List ℕ × List ℕ))
      (s : Status)
      → st.is_valid ≡ true
      → db_key iterator record_read_sample st ≡ key
      → db_value iterator record_read_sample st ≡ v
      → db_prev iterator record_read_sample user sequence fuel st ≡ some prev
      → read_backward rounds fuel prev ≡ some (es, s)
      → read_backward (suc rounds) fuel st ≡ some ((key, v) ∷ es, s)
  unfolding read_backward
  read_backward-valid rounds fuel st prev key v es s valid k w moves rest =
      simp (valid, moves, rest, k, w)

  db_prev-reverse :
      (fuel : ℕ) (st : DbIter I D)
      → st.direction ≡ k_reverse
      → db_prev iterator record_read_sample user sequence fuel st
        ≡ find_prev_user_entry iterator record_read_sample user sequence fuel st
  unfolding db_prev
  db_prev-reverse fuel st d =
      ap
        (λ (d : Direction). elim d [
          | k_forward ↦ do
            (left, more) ←
                leave_key iterator record_read_sample user sequence fuel
                  (record st { saved_key = extract_user_key (iterator.key st.iter) })
            if more
                then find_prev_user_entry iterator record_read_sample user sequence fuel
                    (record left { direction = k_reverse })
                else some left
          | k_reverse ↦ find_prev_user_entry iterator record_read_sample user sequence fuel st
        ])
        d

  db_key-reverse :
      (st : DbIter I D)
      → st.direction ≡ k_reverse
      → db_key iterator record_read_sample st ≡ st.saved_key
  db_key-reverse st d =
      ap
        (λ (d : Direction). elim d [
          | k_forward ↦ extract_user_key (iterator.key st.iter)
          | k_reverse ↦ st.saved_key
        ])
        d

  db_value-reverse :
      (st : DbIter I D)
      → st.direction ≡ k_reverse
      → db_value iterator record_read_sample st ≡ st.saved_value
  db_value-reverse st d =
      ap
        (λ (d : Direction). elim d [
          | k_forward ↦ iterator.value st.iter
          | k_reverse ↦ st.saved_value
        ])
        d

  module _ (place : I → Place Entry) (es : List Entry)
      (laws : IsIterator iterator coded (internal_compare user) place es)
      (o : IsOrder user.compare) where
    db_status-ok :
        (st : DbIter I D) → st.status ≡ ok → db_status iterator record_read_sample st ≡ ok
    db_status-ok st e = simp (e, laws.status_ok st.iter)

    read_backward-live :
        (rounds fuel : ℕ) (k v : List ℕ) (before after : List Entry) (st : DbIter I D)
        → Settled iterator record_read_sample user sequence place es laws
            (walk_back user sequence (record { type = deletion; key = k; held = v }) before after)
            k_reverse
            st
        → IsFalling user sequence before
        → All FitsSample before
        → length (live_back user sequence before) < rounds
        → length before ≤ fuel
        → read_backward rounds fuel st ≡ some (live_back user sequence before, ok)
    read_backward-live zero fuel k v before after st settled falling fits r f = absurd (omega arith)
    read_backward-live (suc rounds) fuel k v before after st settled falling fits r f =
        elim (walk_back-live user sequence o FitsSample
          (record { type = deletion; key = k; held = v }) before after falling
          (λ u. absurd (deletion-ne-value u)) fits) [
            | inl (dead, empty) ↦
                read_backward-invalid rounds fuel st (settled.is_valid ∙ ap is_value dead)
                ∙ (λ i. some (sym empty i, db_status-ok st settled.fine i))
            | inr found ↦
                let halted = settled.halted found.is_value in
                let end =
                  walk_back user sequence (record { type = deletion; key = k; held = v }) before
                    after in
                let (st', ends, there) =
                  find_prev_user_entry-walk iterator record_read_sample user sequence place es laws
                    fuel end.1 end.2 st halted.at found.hold halted.ready
                    (omega (arith, found.short, f)) in
                read_backward-valid rounds fuel st st' end.0.key end.0.held
                  (live_back user sequence end.1) ok (settled.is_valid ∙ ap is_value found.is_value)
                  (db_key-reverse st halted.direction ∙ halted.saved_key)
                  (db_value-reverse st halted.direction ∙ halted.saved_value)
                  (db_prev-reverse fuel st halted.direction ∙ ends)
                  (read_backward-live rounds fuel st.saved_key st.saved_value end.1 end.2 st'
                    (subst
                      (λ (d : Direction).
                        Settled iterator record_read_sample user sequence place es laws
                          (walk_back user sequence (holding deletion st) end.1 end.2) d st')
                      halted.direction there)
                    found.falling found.hold (omega (arith, ap length found.lives, r))
                    (omega (arith, found.short, f)))
                ∙ ap (λ (l : List (List ℕ × List ℕ)). some (l, ok)) (sym found.lives)
          ]

    IsFalling-reverse :
        (before es : List Entry)
        → IsFalling user sequence before
        → IsByUserKey user sequence es
        → All (λ y. All (λ x. user.compare x.0.user_key y.0.user_key ≢ Ordering.gt) before) es
        → IsFalling user sequence (reverse_aux es before)
    IsFalling-reverse before [] falling rising across = falling
    IsFalling-reverse before (e ∷ es) falling (first, rising) (low, across) =
        IsFalling-reverse (e ∷ before) es (low, falling) rising
          (All-zip (λ y. All (λ x. user.compare x.0.user_key y.0.user_key ≢ Ordering.gt) before)
            (λ y. user.compare e.0.user_key y.0.user_key ≢ Ordering.gt)
            (λ y. All (λ x. user.compare x.0.user_key y.0.user_key ≢ Ordering.gt) (e ∷ before)) es
            (λ y. λ h. λ le. (le, h)) across first)

    All-reverse :
        (P : Entry → Type 0) (before es : List Entry)
        → All P before
        → All P es
        → All P (reverse_aux es before)
    All-reverse P before [] h k = h
    All-reverse P before (e ∷ es) h (p, k) = All-reverse P (e ∷ before) es (p, h) k

    -- Under the conditions of a scan forward, SeekToLast and then Prev to the front give the live
    -- entries in reverse order, and the status OK. As many rounds of fuel as there are entries are
    -- enough.
    pub read_backward-seek_to_last :
        (fuel : ℕ) (st : DbIter I D)
        → IsByUserKey user sequence es
        → All FitsSample es
        → Ready st
        → length es ≤ fuel
        → (st' : DbIter I D) × (db_seek_to_last iterator record_read_sample user sequence fuel st
            ≡ some st')
          × (read_backward (suc (length es)) fuel st'
              ≡ some (reverse (live user sequence [] es), ok))
    unfolding db_seek_to_last
    read_backward-seek_to_last fuel st rising fits ready enough =
        let start : DbIter I D = record st {
          direction = k_reverse;
          saved_value = [];
          iter = iterator.seek_to_last st.iter;
        } in
        let long = length-reverse_aux es [] in
        let all = All-reverse FitsSample [] es tt fits in
        let (st', ends, settled) =
          find_prev_user_entry-walk iterator record_read_sample user sequence place es laws fuel
            (reverse es) [] start (laws.last_place st.iter) all
            (record { seeded = ready.seeded; below = ready.below; fine = ready.fine })
            (omega (arith, long, enough)) in
        (
          st',
          ends,
          read_backward-live (suc (length es)) fuel start.saved_key [] (reverse es) [] st' settled
                (IsFalling-reverse [] es tt rising
                  (All-each (λ (y : Entry). Unit {0}) es (λ y. tt)))
                all (omega (arith, length-live_back user sequence (reverse es), long))
                (omega (arith, long, enough))
              ∙ ap (λ (l : List (List ℕ × List ℕ)). some (l, ok))
                  (sym (reverse-live user sequence [] es)),
        )
