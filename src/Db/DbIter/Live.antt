-- ===== src/Db/DbIter/Live.antt =====
-- What a snapshot sees of some entries: the first visible entry of each user key, where it is a value.
-- In the order of internal keys that is the newest one.
use quas_db.Base.{
  ℕ, ◌<◌, ◌≡◌, ◌≢◌, refl, ◌∙◌, Bool, true, false, not, ◌&&◌, ◌||◌, leb, Bool-cases, ◌⊎◌, inl, inr,
  if◌then◌else◌, none, some, List, [], ◌∷◌, All, length, arith,
}
use mathlib.Core.Bool.{false≢true}
use quas_db.Util.Order
use quas_db.Util.Order.{Ordering, flip, IsOrder, is_eq, is_gt}
use quas_db.Util.Comparator.{Comparator}
use quas_db.Util.Iterator.{Place}
use quas_db.Db.Format.{ValueType, deletion, value, ParsedInternalKey}

abbrev pub Entry : Type 0
Entry = ParsedInternalKey × List ℕ

pub All-zip :
    (P Q R : Entry → Type 0) (es : List Entry)
    → ((x : Entry) → P x → Q x → R x)
    → All P es
    → All Q es
    → All R es
All-zip P Q R [] f h k = tt
All-zip P Q R (e ∷ es) f (p, h) (q, k) = (f e p q, All-zip P Q R es f h k)

pub All-ap :
    (P Q : Entry → Type 0) (es : List Entry) → ((x : Entry) → P x → Q x) → All P es → All Q es
All-ap P Q [] f h = tt
All-ap P Q (e ∷ es) f (p, h) = (f e p, All-ap P Q es f h)

pub ValueType-cases : (t : ValueType) → (t ≡ deletion) ⊎ (t ≡ value)
ValueType-cases deletion = inl refl
ValueType-cases value = inr refl

module _ (user : Comparator) (sequence : ℕ) where
  abbrev pub is_visible : ParsedInternalKey → Bool
  is_visible key = leb key.sequence sequence

  -- A visible entry of the user key is among the entries.
  abbrev pub covered : List Entry → List ℕ → Bool
  covered [] k = false
  covered (e ∷ es) k = (is_visible e.0 && is_eq (user.compare e.0.user_key k)) || covered es k

  abbrev pub is_live : List Entry → ParsedInternalKey → Bool
  is_live before key = elim key.type [
    | deletion ↦ false
    | value ↦ is_visible key && not (covered before key.user_key)
  ]

  -- The live entries behind those of `before`, as user keys with values.
  abbrev pub live : (before : List Entry) → List Entry → List (List ℕ × List ℕ)
  live before [] = []
  live before (e ∷ es) =
      let later = live (e ∷ before) es in
      if is_live before e.0 then (e.0.user_key, e.1) ∷ later else later

  -- No user key is below one in front of it.
  abbrev pub IsByUserKey : List Entry → Type 0
  IsByUserKey [] = Unit {0}
  IsByUserKey (e ∷ es) =
      All (λ x. user.compare e.0.user_key x.0.user_key ≢ Ordering.gt) es × IsByUserKey es

  -- Where a walk to the next entry comes to a halt.
  unfoldable pub walk : Bool → List ℕ → List Entry → List Entry → Place Entry
  walk skipping skip before [] = none
  walk skipping skip before (e ∷ es) =
      let past = walk skipping skip (e ∷ before) es in
      let hiding = walk true e.0.user_key (e ∷ before) es in
      if is_visible e.0
      then elim e.0.type [
        | deletion ↦ hiding
        | value ↦
            if skipping && not (is_gt (user.compare e.0.user_key skip))
            then past
            else some (before, e, es)
      ]
      else past

  module _ (before : List Entry) (skipping : Bool) (skip : List ℕ) (e : Entry)
      (es : List Entry) where
    pub walk-unseen :
        is_visible e.0 ≡ false
        → walk skipping skip before (e ∷ es) ≡ walk skipping skip (e ∷ before) es
    unfolding walk
    walk-unseen unseen = rw unseen refl

    pub walk-deletion :
        is_visible e.0 ≡ true
        → e.0.type ≡ deletion
        → walk skipping skip before (e ∷ es) ≡ walk true e.0.user_key (e ∷ before) es
    unfolding walk
    walk-deletion seen t = simp (seen, t)

    pub walk-hidden :
        is_visible e.0 ≡ true
        → e.0.type ≡ value
        → (skipping && not (is_gt (user.compare e.0.user_key skip))) ≡ true
        → walk skipping skip before (e ∷ es) ≡ walk skipping skip (e ∷ before) es
    unfolding walk
    walk-hidden seen t hides = simp (seen, t, hides)

    pub walk-halt :
        is_visible e.0 ≡ true
        → e.0.type ≡ value
        → (skipping && not (is_gt (user.compare e.0.user_key skip))) ≡ false
        → walk skipping skip before (e ∷ es) ≡ some (before, e, es)
    unfolding walk
    walk-halt seen t shows = simp (seen, t, shows)

  pub walk-end :
      (skipping : Bool) (skip : List ℕ) (before : List Entry) → walk skipping skip before [] ≡ none
  unfolding walk
  walk-end skipping skip before = refl

  -- What a walk knows of an entry in front of it: it is covered just where it is skipped.
  pub record Ahead (before : List Entry) (skipping : Bool) (skip : List ℕ) (x : Entry)
      : Type 0 where
    pub skipped :
        covered before x.0.user_key ≡ (skipping && not (is_gt (user.compare x.0.user_key skip)))
    pub above : skipping ≡ true → user.compare skip x.0.user_key ≢ Ordering.gt

  pub Ahead-start : (skip : List ℕ) (es : List Entry) → All (Ahead [] false skip) es
  Ahead-start skip [] = tt
  Ahead-start skip (e ∷ es) =
      (record { skipped = refl; above = λ h. absurd (false≢true h) }, Ahead-start skip es)

  module _ (o : IsOrder user.compare) where
    Ahead-visible :
        (before : List Entry) (skipping : Bool) (skip : List ℕ) (e x : Entry)
        → is_visible e.0 ≡ true
        → user.compare e.0.user_key x.0.user_key ≢ Ordering.gt
        → Ahead before skipping skip e
        → Ahead before skipping skip x
        → Ahead (e ∷ before) true e.0.user_key x
    unfolding flip
    Ahead-visible before skipping skip e x seen le ahead ahead' = record {
      skipped = ground (
        arith,
        seen,
        ahead.skipped,
        ahead'.skipped,
        ahead.above,
        o.flipped e.0.user_key x.0.user_key,
        o.flipped skip x.0.user_key,
        Order.le_lt_trans user.compare o skip e.0.user_key x.0.user_key,
      );
      above = λ h. le;
    }

    Ahead-hidden :
        (before : List Entry) (skipping : Bool) (skip : List ℕ) (e x : Entry)
        → (skipping && not (is_gt (user.compare e.0.user_key skip))) ≡ true
        → Ahead before skipping skip x
        → Ahead (e ∷ before) skipping skip x
    unfolding flip
    Ahead-hidden before skipping skip e x hides ahead = record {
      skipped = ground (
        arith,
        ahead.skipped,
        o.flipped e.0.user_key x.0.user_key,
        o.le_trans x.0.user_key e.0.user_key skip,
      );
      above = ahead.above;
    }

    Ahead-invisible :
        (before : List Entry) (skipping : Bool) (skip : List ℕ) (e x : Entry)
        → is_visible e.0 ≡ false
        → Ahead before skipping skip x
        → Ahead (e ∷ before) skipping skip x
    Ahead-invisible before skipping skip e x unseen ahead = record {
      skipped = rw unseen ahead.skipped;
      above = ahead.above;
    }

    -- What a walk knows where it starts.
    pub record Knows (before : List Entry) (skipping : Bool) (skip : List ℕ) (es : List Entry)
        : Type 0 where
      pub ahead : All (Ahead before skipping skip) es
      pub rising : IsByUserKey es

    -- A halt of a walk, at the first live entry.
    pub record Halts (P : Entry → Type 0) (before : List Entry) (skipping : Bool) (skip : List ℕ)
        (es : List Entry) : Type 0 where
      pub behind : List Entry
      pub entry : Entry
      pub rest : List Entry
      pub found : walk skipping skip before es ≡ some (behind, entry, rest)
      pub lives : live before es ≡ (entry.0.user_key, entry.1) ∷ live (entry ∷ behind) rest
      pub knows : Knows (entry ∷ behind) true entry.0.user_key rest
      pub holds : P entry
      pub hold : All P rest
      pub shorter : length rest < length es

    module _ (P : Entry → Type 0) where
      abbrev pub Outcome : (before : List Entry) → Bool → List ℕ → List Entry → Type 0
      Outcome before skipping skip es =
          ((walk skipping skip before es ≡ none) × (live before es ≡ []))
          ⊎ Halts P before skipping skip es

      -- A walk that goes on past an entry.
      passes :
          (before : List Entry) (skipping later_skipping : Bool) (skip later_skip : List ℕ)
          (e : Entry) (es : List Entry)
          → walk skipping skip before (e ∷ es) ≡ walk later_skipping later_skip (e ∷ before) es
          → is_live before e.0 ≡ false
          → Outcome (e ∷ before) later_skipping later_skip es
          → Outcome before skipping skip (e ∷ es)
      passes before skipping later_skipping skip later_skip e es goes dead outcome = elim outcome [
        | inl (ends, empty) ↦ inl (goes ∙ ends, rw dead empty)
        | inr r ↦ inr (record {
          behind = r.behind;
          entry = r.entry;
          rest = r.rest;
          found = goes ∙ r.found;
          lives = rw dead r.lives;
          knows = r.knows;
          holds = r.holds;
          hold = r.hold;
          shorter = omega (arith, r.shorter);
        })
      ]

      -- A walk over entries sorted by user key ends at the first live one, or behind the last entry
      -- where none is live.
      pub walk-live :
          (before : List Entry) (skipping : Bool) (skip : List ℕ) (es : List Entry)
          → Knows before skipping skip es
          → All P es
          → Outcome before skipping skip es
      unfolding walk
      walk-live before skipping skip [] k h = inl (refl, refl)
      walk-live before skipping skip (e ∷ es) k (p, h) =
          let hiding : All (λ x. is_visible e.0 ≡ true → Ahead (e ∷ before) true e.0.user_key x)
              es =
            All-zip (λ x. user.compare e.0.user_key x.0.user_key ≢ Ordering.gt)
              (Ahead before skipping skip)
              (λ x. is_visible e.0 ≡ true → Ahead (e ∷ before) true e.0.user_key x) es
              (λ x. λ le. λ a. λ seen. Ahead-visible before skipping skip e x seen le k.ahead.0 a)
              k.rising.0 k.ahead.1 in
          elim (Bool-cases (is_visible e.0)) [
            | inr unseen ↦
                passes before skipping skipping skip skip e es
                  (walk-unseen before skipping skip e es unseen) (ground (arith, unseen))
                  (walk-live (e ∷ before) skipping skip es
                    (record {
                      ahead =
                          All-ap (Ahead before skipping skip) (Ahead (e ∷ before) skipping skip) es
                            (λ x. Ahead-invisible before skipping skip e x unseen) k.ahead.1;
                      rising = k.rising.1;
                    })
                    h)
            | inl seen ↦ elim (ValueType-cases e.0.type) [
              | inl t ↦
                  passes before skipping true skip e.0.user_key e es
                    (walk-deletion before skipping skip e es seen t) (rw t refl)
                    (walk-live (e ∷ before) true e.0.user_key es
                      (record {
                        ahead =
                            All-ap
                              (λ x. is_visible e.0 ≡ true → Ahead (e ∷ before) true e.0.user_key x)
                              (Ahead (e ∷ before) true e.0.user_key) es (λ x. λ f. f seen) hiding;
                        rising = k.rising.1;
                      })
                      h)
              | inr t ↦
                  elim (Bool-cases (skipping && not (is_gt (user.compare e.0.user_key skip)))) [
                    | inl hides ↦
                        passes before skipping skipping skip skip e es
                          (walk-hidden before skipping skip e es seen t hides)
                          (ground (arith, t, seen, k.ahead.0.skipped, hides))
                          (walk-live (e ∷ before) skipping skip es
                            (record {
                              ahead =
                                  All-ap (Ahead before skipping skip)
                                    (Ahead (e ∷ before) skipping skip) es
                                    (λ x. Ahead-hidden before skipping skip e x hides) k.ahead.1;
                              rising = k.rising.1;
                            })
                            h)
                    | inr shows ↦ inr (record {
                      behind = before;
                      entry = e;
                      rest = es;
                      found = walk-halt before skipping skip e es seen t shows;
                      lives =
                          let alive : is_live before e.0 ≡ true =
                            ground (arith, t, seen, k.ahead.0.skipped, shows) in
                          rw alive refl;
                      knows = record {
                        ahead =
                            All-ap
                              (λ x. is_visible e.0 ≡ true → Ahead (e ∷ before) true e.0.user_key x)
                              (Ahead (e ∷ before) true e.0.user_key) es (λ x. λ f. f seen) hiding;
                        rising = k.rising.1;
                      };
                      holds = p;
                      hold = h;
                      shorter = omega arith;
                    })
                  ]
            ]
          ]
