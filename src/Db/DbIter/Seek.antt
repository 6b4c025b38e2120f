-- ===== src/Db/DbIter/Seek.antt =====
-- What is live at or past a user key.
use quas_db.Base.{
  ℕ, ◌^◌, ◌<◌, ◌≤◌, ◌≡◌, ◌≢◌, refl, ◌∙◌, true, false, Bool-cases, inl, inr, if◌then◌else◌, List, [],
  ◌∷◌, All, length, arith,
}
use mathlib.Core.Bool.{false≢true}
use quas_db.Util.Order
use quas_db.Util.Order.{Ordering, flip, IsOrder, is_lt, is_eq, is_gt}
use quas_db.Util.Comparator.{Comparator}
use quas_db.Util.Iterator.{first_of, first_past}
use quas_db.Db.Format.{internal_compare, ParsedInternalKey, append_internal_key, value}
use quas_db.Db.Format.Compare.{key_order, internal_compare-append}
use quas_db.Db.DbIter.Live.{
  Entry, live, is_live, is_visible, covered, IsByUserKey, Ahead, Knows, All-ap, ValueType-cases,
}
use quas_db.Db.DbIter.Forward.{coded, FitsSample}

module _ (user : Comparator) where
  -- The entries from the first that is not below a user key.
  abbrev pub at_or_past : List ℕ → List (List ℕ × List ℕ) → List (List ℕ × List ℕ)
  at_or_past target [] = []
  at_or_past target (e ∷ es) =
      let later = at_or_past target es in if is_lt (user.compare e.0 target) then later else e ∷ es

  abbrev sought : List ℕ → ℕ → ParsedInternalKey
  sought target sequence = record { user_key = target; sequence = sequence; type = value }

  -- An entry in front of what a seek looks for is not visible, or has a user key below the target.
  key_order-sought :
      (target : List ℕ) (sequence : ℕ) (key : ParsedInternalKey)
      → key_order user key (sought target sequence) ≡ Ordering.lt
      → is_visible user sequence key ≡ true
      → user.compare key.user_key target ≡ Ordering.lt
  key_order-sought target sequence key below seen = elim (ValueType-cases key.type) [
    | inl t ↦ ground (arith, t, below, seen)
    | inr t ↦ ground (arith, t, below, seen)
  ]

  key_order-past :
      (target : List ℕ) (sequence : ℕ) (key : ParsedInternalKey)
      → is_lt (key_order user key (sought target sequence)) ≡ false
      → user.compare key.user_key target ≢ Ordering.lt
  key_order-past target sequence key past = ground arith

  module _ (sequence : ℕ) (o : IsOrder user.compare) (target : List ℕ) where
    -- Visible entries have user keys below the target.
    abbrev IsBelow : List Entry → Type 0
    IsBelow es =
        All
          (λ e.
            is_visible user sequence e.0 ≡ true → user.compare e.0.user_key target ≡ Ordering.lt)
          es

    covered-below :
        (before : List Entry) (k : List ℕ)
        → IsBelow before
        → user.compare k target ≢ Ordering.lt
        → covered user sequence before k ≡ false
    unfolding flip
    covered-below [] k h above = refl
    covered-below (e ∷ before) k (p, h) above = ground (
      arith,
      p,
      covered-below before k h above,
      o.flipped e.0.user_key k,
      Order.le_lt_trans user.compare o k e.0.user_key target,
    )

    at_or_past-live :
        (before es : List Entry)
        → All (λ e. user.compare e.0.user_key target ≢ Ordering.lt) es
        → at_or_past target (live user sequence before es) ≡ live user sequence before es
    at_or_past-live before [] h = refl
    at_or_past-live before (e ∷ es) (p, h) = elim (Bool-cases (is_live user sequence before e.0)) [
      | inl alive ↦ rw alive (ground (arith, p))
      | inr dead ↦ rw dead (at_or_past-live (e ∷ before) es h)
    ]

    is_live-visible :
        (before : List Entry) (key : ParsedInternalKey)
        → is_live user sequence before key ≡ true
        → is_visible user sequence key ≡ true
    is_live-visible before key alive = elim (ValueType-cases key.type) [
      | inl t ↦ ground (arith, t, alive)
      | inr t ↦ ground (arith, t, alive)
    ]

    at_or_past-drop :
        (before : List Entry) (e : Entry) (es : List Entry)
        → (is_visible user sequence e.0 ≡ true → user.compare e.0.user_key target ≡ Ordering.lt)
        → at_or_past target (live user sequence before (e ∷ es))
          ≡ at_or_past target (live user sequence (e ∷ before) es)
    at_or_past-drop before e es low = elim (Bool-cases (is_live user sequence before e.0)) [
      | inl alive ↦
          let lower : user.compare e.0.user_key target ≡ Ordering.lt =
            low (is_live-visible before e.0 alive) in
          rw (alive, lower) refl
      | inr dead ↦ rw dead refl
    ]

    -- Where a seek leads to.
    pub record Sought (before es : List Entry) : Type 0 where
      pub behind : List Entry
      pub rest : List Entry
      pub found :
          first_past
            (λ e. (coded e).0)
            (internal_compare user)
            (append_internal_key [] (sought target sequence))
            before
            es
          ≡ first_of behind rest
      pub knows : (skip : List ℕ) → Knows user sequence o behind false skip rest
      pub lives : at_or_past target (live user sequence before es) ≡ live user sequence behind rest
      pub hold : All FitsSample rest
      pub short : length rest ≤ length es

    Ahead-above :
        (before : List Entry) (skip : List ℕ) (es : List Entry)
        → IsBelow before
        → All (λ e. user.compare e.0.user_key target ≢ Ordering.lt) es
        → All (Ahead user sequence before false skip) es
    Ahead-above before skip es below =
        All-ap (λ e. user.compare e.0.user_key target ≢ Ordering.lt)
          (Ahead user sequence before false skip) es
          (λ x. λ above. record {
            skipped = covered-below before x.0.user_key below above;
            above = λ h. absurd (false≢true h);
          })

    pub seek_place-Sought :
        (before es : List Entry)
        → sequence < 2 ^ 56
        → IsBelow before
        → IsByUserKey user sequence es
        → All FitsSample es
        → Sought before es
    unfolding flip
    seek_place-Sought before [] small below rising fits = record {
      behind = before;
      rest = [];
      found = refl;
      knows = λ skip. record { ahead = tt; rising = tt };
      lives = refl;
      hold = tt;
      short = omega arith;
    }
    seek_place-Sought before (e ∷ es) small below (first, rising) (fit, fits) =
        let order = internal_compare-append user e.0 (sought target sequence) fit.0 small in
        elim (Bool-cases (is_lt (key_order user e.0 (sought target sequence)))) [
          | inl less ↦
              let low = key_order-sought target sequence e.0 (ground (arith, less)) in
              let r = seek_place-Sought (e ∷ before) es small (low, below) rising fits in
              record {
                behind = r.behind;
                rest = r.rest;
                found = rw (order, less) r.found;
                knows = r.knows;
                lives = at_or_past-drop before e es low ∙ r.lives;
                hold = r.hold;
                short = omega (arith, r.short);
              }
          | inr past ↦
              let above : All (λ x. user.compare x.0.user_key target ≢ Ordering.lt) (e ∷ es) = (
                key_order-past target sequence e.0 past,
                All-ap (λ x. user.compare e.0.user_key x.0.user_key ≢ Ordering.gt)
                    (λ x. user.compare x.0.user_key target ≢ Ordering.lt) es
                    (λ x. λ le. ground (
                      arith,
                      le,
                      key_order-past target sequence e.0 past,
                      Order.le_lt_trans user.compare o e.0.user_key x.0.user_key target,
                    ))
                    first,
              ) in
              record {
                behind = before;
                rest = e ∷ es;
                found = rw (order, past) refl;
                knows = λ skip. record {
                  ahead = Ahead-above before skip (e ∷ es) below above;
                  rising = (first, rising);
                };
                lives = at_or_past-live before (e ∷ es) above;
                hold = (fit, fits);
                short = omega arith;
              }
        ]
