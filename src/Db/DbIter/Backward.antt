-- ===== src/Db/DbIter/Backward.antt =====
-- FindPrevUserEntry walks back to the next live entry.
use quas_db.Base.{
  ℕ, zero, suc, ◌<◌, ◌≤◌, ◌≡◌, ◌≢◌, refl, sym, ap, ◌∙◌, Bool, true, false, Bool-cases, ◌⊎◌, inl,
  inr, if◌then◌else◌, some, List, [], ◌∷◌, All, length, arith,
}
use mathlib.Core.Path.{subst}
use mathlib.Core.Bool.{false≢true}
use quas_db.Util.Status.{ok}
use quas_db.Util.Comparator.{Comparator}
use quas_db.Util.Iterator.{Iterator, IsIterator, Place, is_place, last_of}
use quas_db.Db.Format.{
  ValueType, deletion, value, ParsedInternalKey, extract_user_key, internal_compare,
}
use quas_db.Db.DbIter.{
  DbIter, Direction, parse_key, visit_prev, find_prev_loop, end_prev, find_prev_user_entry,
}
use quas_db.Db.DbIter.Live.{Entry, ValueType-cases}
use quas_db.Db.DbIter.LiveBack.{
  Held, breaks, held_behind, walk_back, walk_back-stop, walk_back-pass,
}
use quas_db.Db.DbIter.Forward.{coded, FitsSample, Ready, user_key-coded, parse_at}

abbrev pub holding : {I D : Type 0} → ValueType → DbIter I D → Held
holding t st = record { type = t; key = st.saved_key; held = st.saved_value }

abbrev pub is_value : ValueType → Bool
is_value deletion = false
is_value value = true

pub deletion-ne-value : deletion ≢ value
deletion-ne-value e = false≢true (ap is_value e)

-- The loop has ended where a walk back ends.
pub record Halted {I D : Type 0} (place : I → Place Entry) (end : Held × List Entry × List Entry)
    (d : Direction) (st : DbIter I D) : Type 0 where
  pub saved_key : st.saved_key ≡ end.0.key
  pub saved_value : st.saved_value ≡ end.0.held
  pub at : place st.iter ≡ last_of end.1 end.2
  pub direction : st.direction ≡ d
  pub ready : Ready st

module _ {I D : Type 0} (iterator : Iterator I) (record_read_sample : D → List ℕ → D)
    (user : Comparator) (sequence : ℕ) where
  module _ (st : DbIter I D) (e : Entry)
      (is_key : extract_user_key (iterator.key st.iter) ≡ e.0.user_key)
      (is_held : iterator.value st.iter ≡ e.1) where
    visit_prev-stop :
        (t : ValueType)
        → breaks user sequence (holding t st) e.0 ≡ true
        → visit_prev iterator record_read_sample user sequence t st (some e.0) ≡ (true, t, st)
    unfolding visit_prev
    visit_prev-stop deletion stop = absurd (ground (arith, stop))
    visit_prev-stop value stop = ground (arith, stop)

    visit_prev-pass :
        (t : ValueType)
        → breaks user sequence (holding t st) e.0 ≡ false
        → visit_prev iterator record_read_sample user sequence t st (some e.0) ≡ (
          false,
          (held_behind user sequence (holding t st) e).type,
          record st {
            saved_key = (held_behind user sequence (holding t st) e).key;
            saved_value = (held_behind user sequence (holding t st) e).held;
          },
        )
    unfolding visit_prev
    visit_prev-pass deletion pass = elim (ValueType-cases e.0.type) [
      | inl u ↦ ground (arith, u)
      | inr u ↦ ground (arith, u, is_key, is_held)
    ]
    visit_prev-pass value pass = elim (ValueType-cases e.0.type) [
      | inl u ↦ ground (arith, u, pass)
      | inr u ↦ ground (arith, u, is_key, is_held, pass)
    ]

  module _ (fuel : ℕ) (t : ValueType) (st st1 : DbIter I D) (ikey : ParsedInternalKey)
      (parsed : parse_key iterator record_read_sample st ≡ some (st1, some ikey))
      (later : ValueType) (v : DbIter I D) where
    find_prev_loop-stop :
        visit_prev iterator record_read_sample user sequence t st1 (some ikey) ≡ (true, later, v)
        → find_prev_loop iterator record_read_sample user sequence (suc fuel) t st ≡ some (later, v)
    unfolding find_prev_loop
    find_prev_loop-stop visits = rw (parsed, visits) refl

    find_prev_loop-pass :
        visit_prev iterator record_read_sample user sequence t st1 (some ikey) ≡ (false, later, v)
        → find_prev_loop iterator record_read_sample user sequence (suc fuel) t st ≡ (
            if iterator.valid (iterator.prev v.iter)
            then find_prev_loop iterator record_read_sample user sequence fuel later
                (record v { iter = iterator.prev v.iter })
            else some (later, record v { iter = iterator.prev v.iter }))
    unfolding find_prev_loop
    find_prev_loop-pass visits = rw (parsed, visits) refl

  module _ (place : I → Place Entry) (es : List Entry)
      (laws : IsIterator iterator coded (internal_compare user) place es) where
    abbrev Halts : (fuel : ℕ) → ValueType → DbIter I D → Held × List Entry × List Entry → Type 0
    Halts fuel t st end =
        (st' : DbIter I D) × (find_prev_loop iterator record_read_sample user sequence fuel t st
          ≡ some (end.0.type, st'))
        × Halted place end st.direction st'

    -- Behind an entry that the walk passes.
    record Passed (fuel : ℕ) (t : ValueType) (before : List Entry) (e : Entry) (after : List Entry)
        (st : DbIter I D) (h : Held) : Type 0 where
      pub end : DbIter I D
      pub passes : find_prev_loop iterator record_read_sample user sequence (suc fuel) t st ≡ (
          if iterator.valid end.iter
          then find_prev_loop iterator record_read_sample user sequence fuel h.type end
          else some (h.type, end))
      pub saved_key : end.saved_key ≡ h.key
      pub saved_value : end.saved_value ≡ h.held
      pub at : place end.iter ≡ last_of before (e ∷ after)
      pub direction : end.direction ≡ st.direction
      pub ready : Ready end

    -- One round of the loop: it breaks off, or goes on before this entry.
    find_prev_loop-round :
        (fuel : ℕ) (t : ValueType) (before : List Entry) (e : Entry) (after : List Entry)
        (st : DbIter I D)
        → place st.iter ≡ some (before, e, after)
        → FitsSample e
        → Ready st
        → ((breaks user sequence (holding t st) e.0 ≡ true)
            × Halts (suc fuel) t st (holding t st, e ∷ before, after))
          ⊎ ((breaks user sequence (holding t st) e.0 ≡ false)
              × Passed fuel t before e after st (held_behind user sequence (holding t st) e))
    find_prev_loop-round fuel t before e after st at fit ready =
        let (st1, parsed, same) =
          parse_at iterator record_read_sample user sequence place es laws st before e after at fit
            ready in
        let ready1 : Ready st1 = record {
          seeded = same.seeded;
          below = same.below;
          fine = same.status ∙ ready.fine;
        } in
        let at1 : place st1.iter ≡ some (before, e, after) = ap place same.iter ∙ at in
        let is_key =
          ap extract_user_key (laws.key_of st1.iter before e after at1) ∙ user_key-coded e.0 in
        let is_held = laws.value_of st1.iter before e after at1 in
        let held_same : holding t st1 ≡ holding t st =
          λ i. record { type = t; key = same.saved_key i; held = same.saved_value i } in
        let breaks_same = ap (λ (h : Held). breaks user sequence h e.0) held_same in
        elim (Bool-cases (breaks user sequence (holding t st) e.0)) [
          | inl stop ↦ inl (
            stop,
            (
              st1,
              find_prev_loop-stop fuel t st st1 e.0 parsed t st1
                  (visit_prev-stop st1 e is_key is_held t (breaks_same ∙ stop)),
              record {
                saved_key = same.saved_key;
                saved_value = same.saved_value;
                at = at1;
                direction = same.direction;
                ready = ready1;
              },
            ),
          )
          | inr pass ↦
              let behind = held_behind user sequence (holding t st1) e in
              let behind_same : behind ≡ held_behind user sequence (holding t st) e =
                ap (λ (h : Held). held_behind user sequence h e) held_same in
              inr (
                pass,
                subst (λ (h : Held). Passed fuel t before e after st h) behind_same
                    (record {
                      end = record st1 {
                        saved_key = behind.key;
                        saved_value = behind.held;
                        iter = iterator.prev st1.iter;
                      };
                      passes =
                          find_prev_loop-pass fuel t st st1 e.0 parsed behind.type
                            (record st1 { saved_key = behind.key; saved_value = behind.held })
                            (visit_prev-pass st1 e is_key is_held t (breaks_same ∙ pass));
                      saved_key = refl;
                      saved_value = refl;
                      at = laws.prev_place st1.iter before e after at1;
                      direction = same.direction;
                      ready = record {
                        seeded = ready1.seeded;
                        below = ready1.below;
                        fine = ready1.fine;
                      };
                    }),
              )
        ]

    find_prev_loop-walk :
        (before : List Entry) (fuel : ℕ) (t : ValueType) (e : Entry) (after : List Entry)
        (st : DbIter I D)
        → place st.iter ≡ some (before, e, after)
        → All FitsSample (e ∷ before)
        → Ready st
        → length before < fuel
        → Halts fuel t st (walk_back user sequence (holding t st) (e ∷ before) after)
    find_prev_loop-walk before zero t e after st at fits ready enough = absurd (omega arith)
    find_prev_loop-walk [] (suc fuel) t e after st at (fit, fits) ready enough =
        elim (find_prev_loop-round fuel t [] e after st at fit ready) [
          | inl (stop, halts) ↦
              subst (λ end. Halts (suc fuel) t st end)
                (sym (walk_back-stop user sequence (holding t st) e [] after stop)) halts
          | inr (pass, p) ↦
              subst (λ end. Halts (suc fuel) t st end)
                (sym (walk_back-pass user sequence (holding t st) e [] after pass))
                (
                  p.end,
                  p.passes
                      ∙ ap
                          (λ (b : Bool).
                            if b
                            then find_prev_loop iterator record_read_sample user sequence fuel
                                (held_behind user sequence (holding t st) e).type p.end
                            else some ((held_behind user sequence (holding t st) e).type, p.end))
                          (laws.valid_place p.end.iter ∙ ap is_place p.at),
                  record {
                    saved_key = p.saved_key;
                    saved_value = p.saved_value;
                    at = p.at;
                    direction = p.direction;
                    ready = p.ready;
                  },
                )
        ]
    find_prev_loop-walk (e' ∷ before) (suc fuel) t e after st at (fit, fits) ready enough =
        elim (find_prev_loop-round fuel t (e' ∷ before) e after st at fit ready) [
          | inl (stop, halts) ↦
              subst (λ end. Halts (suc fuel) t st end)
                (sym (walk_back-stop user sequence (holding t st) e (e' ∷ before) after stop)) halts
          | inr (pass, p) ↦
              let h = held_behind user sequence (holding t st) e in
              let same : holding h.type p.end ≡ h =
                λ i. record { type = h.type; key = p.saved_key i; held = p.saved_value i } in
              let (st', ends, halted) =
                find_prev_loop-walk before fuel h.type e' (e ∷ after) p.end p.at fits p.ready
                  (omega (arith, enough)) in
              subst (λ end. Halts (suc fuel) t st end)
                (ap (λ (h : Held). walk_back user sequence h (e' ∷ before) (e ∷ after)) same
                  ∙ sym (walk_back-pass user sequence (holding t st) e (e' ∷ before) after pass))
                (
                  st',
                  p.passes
                      ∙ ap
                          (λ (b : Bool).
                            if b
                            then find_prev_loop iterator record_read_sample user sequence fuel
                                h.type p.end
                            else some (h.type, p.end))
                          (laws.valid_place p.end.iter ∙ ap is_place p.at)
                      ∙ ends,
                  record {
                    saved_key = halted.saved_key;
                    saved_value = halted.saved_value;
                    at = halted.at;
                    direction = halted.direction ∙ p.direction;
                    ready = halted.ready;
                  },
                )
        ]

    -- Where FindPrevUserEntry leaves the iterator.
    pub record Settled (end : Held × List Entry × List Entry) (d : Direction) (st : DbIter I D)
        : Type 0 where
      pub is_valid : st.is_valid ≡ is_value end.0.type
      pub halted : end.0.type ≡ value → Halted place end d st
      pub fine : st.status ≡ ok

    Settled-end :
        (end : Held × List Entry × List Entry) (d : Direction) (t : ValueType) (st : DbIter I D)
        → end.0.type ≡ t
        → Halted place end d st
        → Settled end d (end_prev iterator record_read_sample user sequence t st)
    Settled-end end d deletion st e halted = record {
      is_valid = ap is_value (sym e);
      halted = λ v. absurd (deletion-ne-value (sym e ∙ v));
      fine = halted.ready.fine;
    }
    Settled-end end d value st e halted = record {
      is_valid = ap is_value (sym e);
      halted = λ v. record {
        saved_key = halted.saved_key;
        saved_value = halted.saved_value;
        at = halted.at;
        direction = halted.direction;
        ready = record {
          seeded = halted.ready.seeded;
          below = halted.ready.below;
          fine = halted.ready.fine;
        };
      };
      fine = halted.ready.fine;
    }

    find_prev_user_entry-valid :
        (fuel : ℕ) (st st' : DbIter I D) (t : ValueType)
        → iterator.valid st.iter ≡ true
        → find_prev_loop iterator record_read_sample user sequence fuel deletion st ≡ some (t, st')
        → find_prev_user_entry iterator record_read_sample user sequence fuel st
          ≡ some (end_prev iterator record_read_sample user sequence t st')
    unfolding find_prev_user_entry
    find_prev_user_entry-valid fuel st st' t valid loops = simp (valid, loops)

    find_prev_user_entry-invalid :
        (fuel : ℕ) (st : DbIter I D)
        → iterator.valid st.iter ≡ false
        → find_prev_user_entry iterator record_read_sample user sequence fuel st
          ≡ some (end_prev iterator record_read_sample user sequence deletion st)
    unfolding find_prev_user_entry
    find_prev_user_entry-invalid fuel st invalid = simp (invalid)

    pub find_prev_user_entry-walk :
        (fuel : ℕ) (before after : List Entry) (st : DbIter I D)
        → place st.iter ≡ last_of before after
        → All FitsSample before
        → Ready st
        → length before ≤ fuel
        → (st' : DbIter I D) × (find_prev_user_entry iterator record_read_sample user sequence fuel
              st
            ≡ some st')
          × Settled (walk_back user sequence (holding deletion st) before after) st.direction st'
    find_prev_user_entry-walk fuel [] after st at fits ready enough = (
      end_prev iterator record_read_sample user sequence deletion st,
      find_prev_user_entry-invalid fuel st (laws.valid_place st.iter ∙ ap is_place at),
      record { is_valid = refl; halted = λ v. absurd (deletion-ne-value v); fine = ready.fine },
    )
    find_prev_user_entry-walk fuel (e ∷ before) after st at fits ready enough =
        let (st', loops, halted) =
          find_prev_loop-walk before fuel deletion e after st at fits ready
            (omega (arith, enough)) in
        let end = walk_back user sequence (holding deletion st) (e ∷ before) after in
        (
          end_prev iterator record_read_sample user sequence end.0.type st',
          find_prev_user_entry-valid fuel st st' end.0.type
              (laws.valid_place st.iter ∙ ap is_place at) loops,
          Settled-end end st.direction end.0.type st' refl halted,
        )
