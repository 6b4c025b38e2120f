-- ===== src/Db/DbIter/Forward.antt =====
-- FindNextUserEntry walks to the next live entry.
use quas_db.Base.{
  ℕ, zero, suc, ◌+◌, ◌^◌, ◌<◌, ◌≡◌, refl, sym, ap, ◌∙◌, Bool, true, false, not, ◌&&◌, Bool-cases,
  ◌⊎◌, inl, inr, if◌then◌else◌, Option, some, List, [], ◌∷◌, All, length, arith,
}
use quas_db.Util.Order.{is_gt}
use quas_db.Util.Random.{random_seed}
use quas_db.Util.Status.{ok}
use quas_db.Util.Comparator.{Comparator}
use quas_db.Util.Iterator.{Iterator, IsIterator, Place, is_place}
use quas_db.Util.Coding.{put_fixed64}
use quas_db.Db.Format.{
  internal_compare, deletion, value, ParsedInternalKey, append_internal_key, extract_user_key,
  pack_sequence_and_type,
}
use quas_db.Db.Format.Keys.{extract-with_tag}
use quas_db.Db.DbIter.{DbIter, Direction, parse_key, visit_next, find_next_user_entry, new_db_iter}
use quas_db.Db.DbIter.Sample.{
  IsSeed, IsSeed-random_next, IsSeed-random_seed, SameBut, parse_key-SameBut,
}
use quas_db.Db.DbIter.Live.{
  Entry, walk, is_visible, ValueType-cases, walk-unseen, walk-deletion, walk-hidden, walk-halt,
  walk-end,
}

abbrev pub coded : Entry → List ℕ × List ℕ
coded e = (append_internal_key [] e.0, e.1)

pub user_key-coded :
    (key : ParsedInternalKey) → extract_user_key (append_internal_key [] key) ≡ key.user_key
unfolding append_internal_key put_fixed64
user_key-coded key = extract-with_tag key.user_key (pack_sequence_and_type key.sequence key.type)

-- An entry whose sequence number fits, and whose bytes a size_t counts with room to spare.
abbrev pub FitsSample : Entry → Type 0
FitsSample e = (e.0.sequence < 2 ^ 56) × (length (coded e).0 + length (coded e).1 < 2 ^ 62)

pub record Ready {I D : Type 0} (st : DbIter I D) : Type 0 where
  pub seeded : IsSeed st.rnd
  pub below : st.bytes_until_read_sampling < 2 ^ 63
  pub fine : st.status ≡ ok

pub record Arrived {I D : Type 0} (place : I → Place Entry) (p : Place Entry) (d : Direction)
    (st : DbIter I D) : Type 0 where
  pub at : place st.iter ≡ p
  pub is_valid : st.is_valid ≡ is_place p
  pub direction : st.direction ≡ d
  pub ready : Ready st

pub Arrived-carry :
    {I D : Type 0} (place : I → Place Entry) {p q : Place Entry} {d d' : Direction}
    {st : DbIter I D}
    → p ≡ q
    → d' ≡ d
    → Arrived place q d' st
    → Arrived place p d st
Arrived-carry place e f a = record {
  at = a.at ∙ sym e;
  is_valid = a.is_valid ∙ ap is_place (sym e);
  direction = a.direction ∙ f;
  ready = a.ready;
}

module _ {I D : Type 0} (iterator : Iterator I) (record_read_sample : D → List ℕ → D)
    (user : Comparator) (sequence : ℕ) (place : I → Place Entry) (es : List Entry)
    (laws : IsIterator iterator coded (internal_compare user) place es) where
  pub parse_at :
      (st : DbIter I D) (before : List Entry) (e : Entry) (after : List Entry)
      → place st.iter ≡ some (before, e, after)
      → FitsSample e
      → Ready st
      → (st' : DbIter I D) × (parse_key iterator record_read_sample st ≡ some (st', some e.0))
        × SameBut st st'
  parse_at st before e after at fits ready =
      let k = laws.key_of st.iter before e after at in
      let v = laws.value_of st.iter before e after at in
      parse_key-SameBut iterator record_read_sample st e.0 k fits.0
        (omega (arith, ap length k, ap length v, fits.1)) ready.below ready.seeded

  module _ (fuel : ℕ) (skipping : Bool) (st st1 : DbIter I D) (ikey : ParsedInternalKey)
      (parsed : parse_key iterator record_read_sample st ≡ some (st1, some ikey)) where
    find_next-found :
        (later : Bool) (v : DbIter I D)
        → visit_next iterator record_read_sample user sequence skipping st1 (some ikey)
          ≡ (true, later, v)
        → find_next_user_entry iterator record_read_sample user sequence (suc fuel) skipping st
          ≡ some v
    unfolding find_next_user_entry
    find_next-found later v visits = rw (parsed, visits) refl

    find_next-passed :
        (later : Bool) (v : DbIter I D)
        → visit_next iterator record_read_sample user sequence skipping st1 (some ikey)
          ≡ (false, later, v)
        → find_next_user_entry iterator record_read_sample user sequence (suc fuel) skipping st ≡ (
            if iterator.valid (iterator.next v.iter)
            then find_next_user_entry iterator record_read_sample user sequence fuel later
                (record v { iter = iterator.next v.iter })
            else some (record v { iter = iterator.next v.iter; saved_key = []; is_valid = false }))
    unfolding find_next_user_entry
    find_next-passed later v visits = rw (parsed, visits) refl

  module _ (skipping : Bool) (st : DbIter I D) (ikey : ParsedInternalKey) where
    visit_next-unseen :
        is_visible user sequence ikey ≡ false
        → visit_next iterator record_read_sample user sequence skipping st (some ikey)
          ≡ (false, skipping, st)
    unfolding visit_next
    visit_next-unseen unseen = rw unseen refl

    visit_next-deletion :
        is_visible user sequence ikey ≡ true
        → ikey.type ≡ deletion
        → visit_next iterator record_read_sample user sequence skipping st (some ikey)
          ≡ (false, true, record st { saved_key = ikey.user_key })
    unfolding visit_next
    visit_next-deletion seen t = simp (seen, t)

    visit_next-hidden :
        (skip : List ℕ)
        → st.saved_key ≡ skip
        → is_visible user sequence ikey ≡ true
        → ikey.type ≡ value
        → (skipping && not (is_gt (user.compare ikey.user_key skip))) ≡ true
        → visit_next iterator record_read_sample user sequence skipping st (some ikey)
          ≡ (false, skipping, st)
    unfolding visit_next
    visit_next-hidden skip same seen t hides = simp (same, seen, t, hides)

    visit_next-shown :
        (skip : List ℕ)
        → st.saved_key ≡ skip
        → is_visible user sequence ikey ≡ true
        → ikey.type ≡ value
        → (skipping && not (is_gt (user.compare ikey.user_key skip))) ≡ false
        → visit_next iterator record_read_sample user sequence skipping st (some ikey)
          ≡ (true, skipping, record st { is_valid = true; saved_key = [] })
    unfolding visit_next
    visit_next-shown skip same seen t shows = simp (same, seen, t, shows)

  -- The rest of the loop behind an entry.
  abbrev pub resume : (fuel : ℕ) → Bool → DbIter I D → Option (DbIter I D)
  resume fuel skipping v =
      if iterator.valid (iterator.next v.iter)
      then find_next_user_entry iterator record_read_sample user sequence fuel skipping
          (record v { iter = iterator.next v.iter })
      else some (record v { iter = iterator.next v.iter; saved_key = []; is_valid = false })

  pub record Found (fuel : ℕ) (skipping : Bool) (before : List Entry) (e : Entry)
      (after : List Entry) (st : DbIter I D) : Type 0 where
    pub end : DbIter I D
    pub finds :
        find_next_user_entry iterator record_read_sample user sequence (suc fuel) skipping st
        ≡ some end
    pub arrived :
        Arrived place (walk user sequence skipping st.saved_key before (e ∷ after)) st.direction end

  pub record Passed (fuel : ℕ) (skipping : Bool) (before : List Entry) (e : Entry)
      (after : List Entry) (st : DbIter I D) : Type 0 where
    pub later : Bool
    pub end : DbIter I D
    pub passes :
        find_next_user_entry iterator record_read_sample user sequence (suc fuel) skipping st
        ≡ resume fuel later end
    pub at : place end.iter ≡ some (before, e, after)
    pub direction : end.direction ≡ st.direction
    pub ready : Ready end
    pub walks :
        walk user sequence skipping st.saved_key before (e ∷ after)
        ≡ walk user sequence later end.saved_key (e ∷ before) after

  -- One round of the loop: it returns at a live entry, or goes on behind this one.
  find_next-round :
      (fuel : ℕ) (skipping : Bool) (before : List Entry) (e : Entry) (after : List Entry)
      (st : DbIter I D)
      → place st.iter ≡ some (before, e, after)
      → FitsSample e
      → Ready st
      → Found fuel skipping before e after st ⊎ Passed fuel skipping before e after st
  find_next-round fuel skipping before e after st at fits ready =
      let (st1, parsed, same) = parse_at st before e after at fits ready in
      let ready1 : Ready st1 = record {
        seeded = same.seeded;
        below = same.below;
        fine = same.status ∙ ready.fine;
      } in
      let at1 : place st1.iter ≡ some (before, e, after) = ap place same.iter ∙ at in
      elim (Bool-cases (is_visible user sequence e.0)) [
        | inr unseen ↦ inr (record {
          later = skipping;
          end = st1;
          passes =
              find_next-passed fuel skipping st st1 e.0 parsed skipping st1
                (visit_next-unseen skipping st1 e.0 unseen);
          at = at1;
          direction = same.direction;
          ready = ready1;
          walks =
              walk-unseen user sequence before skipping st.saved_key e after unseen
              ∙ ap (λ (k : List ℕ). walk user sequence skipping k (e ∷ before) after)
                  (sym same.saved_key);
        })
        | inl seen ↦ elim (ValueType-cases e.0.type) [
          | inl t ↦ inr (record {
            later = true;
            end = record st1 { saved_key = e.0.user_key };
            passes =
                find_next-passed fuel skipping st st1 e.0 parsed true
                  (record st1 { saved_key = e.0.user_key })
                  (visit_next-deletion skipping st1 e.0 seen t);
            at = at1;
            direction = same.direction;
            ready = record { seeded = ready1.seeded; below = ready1.below; fine = ready1.fine };
            walks = walk-deletion user sequence before skipping st.saved_key e after seen t;
          })
          | inr t ↦
              elim (Bool-cases (skipping && not (is_gt (user.compare e.0.user_key st.saved_key)))) [
                | inl hides ↦ inr (record {
                  later = skipping;
                  end = st1;
                  passes =
                      find_next-passed fuel skipping st st1 e.0 parsed skipping st1 (
                        visit_next-hidden skipping st1 e.0 st.saved_key same.saved_key seen t
                          hides);
                  at = at1;
                  direction = same.direction;
                  ready = ready1;
                  walks =
                      walk-hidden user sequence before skipping st.saved_key e after seen t hides
                      ∙ ap (λ (k : List ℕ). walk user sequence skipping k (e ∷ before) after)
                          (sym same.saved_key);
                })
                | inr shows ↦ inl (record {
                  end = record st1 { is_valid = true; saved_key = [] };
                  finds =
                      find_next-found fuel skipping st st1 e.0 parsed skipping
                        (record st1 { is_valid = true; saved_key = [] })
                        (visit_next-shown skipping st1 e.0 st.saved_key same.saved_key seen t
                          shows);
                  arrived =
                      let halt =
                        walk-halt user sequence before skipping st.saved_key e after seen t shows in
                      record {
                        at = at1 ∙ sym halt;
                        is_valid = ap is_place (sym halt);
                        direction = same.direction;
                        ready = record {
                          seeded = ready1.seeded;
                          below = ready1.below;
                          fine = ready1.fine;
                        };
                      };
                })
              ]
        ]
      ]

  -- The loop from an entry on, and behind an entry.
  pub resume-walk :
      (after : List Entry) (fuel : ℕ) (skipping : Bool) (before : List Entry) (e : Entry)
      (st : DbIter I D)
      → place st.iter ≡ some (before, e, after)
      → All FitsSample after
      → Ready st
      → length after < fuel
      → (st' : DbIter I D) × (resume fuel skipping st ≡ some st')
        × Arrived place
            (walk user sequence skipping st.saved_key (e ∷ before) after)
            st.direction
            st'
  resume-walk after zero skipping before e st at fits ready enough = absurd (omega arith)
  resume-walk [] (suc fuel) skipping before e st at fits ready enough =
      let moved = laws.next_place st.iter before e [] at in
      let ends = laws.valid_place (iterator.next st.iter) ∙ ap is_place moved in
      (
        record st { iter = iterator.next st.iter; saved_key = []; is_valid = false },
        rw ends refl,
        let none_left = walk-end user sequence skipping st.saved_key (e ∷ before) in
            record {
              at = moved ∙ sym none_left;
              is_valid = ap is_place (sym none_left);
              direction = refl;
              ready = record { seeded = ready.seeded; below = ready.below; fine = ready.fine };
            },
      )
  resume-walk (e' ∷ after) (suc fuel) skipping before e st at (fit, fits) ready enough =
      let moved = laws.next_place st.iter before e (e' ∷ after) at in
      let goes = laws.valid_place (iterator.next st.iter) ∙ ap is_place moved in
      let st1 : DbIter I D = record st { iter = iterator.next st.iter } in
      elim (find_next-round fuel skipping (e ∷ before) e' after st1 moved fit
        (record { seeded = ready.seeded; below = ready.below; fine = ready.fine })) [
          | inl f ↦ (f.end, rw goes f.finds, f.arrived)
          | inr p ↦
              let (st', ends, arrived) =
                resume-walk after fuel p.later (e ∷ before) e' p.end p.at fits p.ready
                  (omega arith) in
              (st', rw goes (p.passes ∙ ends), Arrived-carry place p.walks p.direction arrived)
        ]

  pub find_next-walk :
      (fuel : ℕ) (skipping : Bool) (before : List Entry) (e : Entry) (after : List Entry)
      (st : DbIter I D)
      → place st.iter ≡ some (before, e, after)
      → All FitsSample (e ∷ after)
      → Ready st
      → suc (length after) < fuel
      → (st' : DbIter I D) × (find_next_user_entry iterator record_read_sample user sequence fuel
            skipping st
          ≡ some st')
        × Arrived place
            (walk user sequence skipping st.saved_key before (e ∷ after))
            st.direction
            st'
  find_next-walk zero skipping before e after st at fits ready enough = absurd (omega arith)
  find_next-walk (suc fuel) skipping before e after st at (fit, fits) ready enough =
      elim (find_next-round fuel skipping before e after st at fit ready) [
        | inl f ↦ (f.end, f.finds, f.arrived)
        | inr p ↦
            let (st', ends, arrived) =
              resume-walk after fuel p.later before e p.end p.at fits p.ready (omega arith) in
            (st', p.passes ∙ ends, Arrived-carry place p.walks p.direction arrived)
      ]

pub new_db_iter-Ready :
    {I D : Type 0} (db : D) (iter : I) (seed : ℕ) → Ready (new_db_iter db iter seed)
unfolding new_db_iter
new_db_iter-Ready db iter seed = record {
  seeded = IsSeed-random_next (random_seed seed) (IsSeed-random_seed seed);
  below = omega arith;
  fine = refl;
}
