-- ===== src/Db/DbIter/LiveBack.antt =====
-- What a snapshot sees of some entries, from the last entry to the first.
use quas_db.Base.{
  ℕ, ◌≤◌, ◌≡◌, ◌≢◌, refl, sym, ap, ◌∙◌, Bool, true, false, ◌&&◌, Bool-cases, ◌⊎◌, inl, inr,
  if◌then◌else◌, List, [], ◌∷◌, ◌++◌, All, length, arith,
}
use mathlib.Core.List.{reverse_aux}
use mathlib.Core.Path.{subst}
use quas_db.Util.Order
use quas_db.Util.Order.{Ordering, flip, IsOrder, compare_refl, is_eq, is_lt, is_gt}
use quas_db.Util.Comparator.{Comparator}
use quas_db.Db.Format.{ValueType, deletion, value, ParsedInternalKey}
use quas_db.Db.DbIter.Live.{Entry, live, is_live, is_visible, covered, ValueType-cases}

-- What a walk back holds: the type, the key and the value of the last visible entry it passed.
pub record Held : Type 0 where
  pub type : ValueType
  pub key : List ℕ
  pub held : List ℕ

module _ (user : Comparator) (sequence : ℕ) where
  -- The live entries of some entries that stand in reverse order.
  abbrev pub live_back : List Entry → List (List ℕ × List ℕ)
  live_back [] = []
  live_back (e ∷ before) =
      let earlier = live_back before in
      if is_live user sequence before e.0 then (e.0.user_key, e.1) ∷ earlier else earlier

  pub reverse-live :
      (before es : List Entry)
      → reverse_aux (live user sequence before es) (live_back before)
        ≡ live_back (reverse_aux es before)
  reverse-live before [] = refl
  reverse-live before (e ∷ es) = elim (Bool-cases (is_live user sequence before e.0)) [
    | inl alive ↦
        ap
          (λ (b : Bool).
            reverse_aux
              (if b
                then (e.0.user_key, e.1) ∷ live user sequence (e ∷ before) es
                else live user sequence (e ∷ before) es)
              (live_back before))
          alive
        ∙ ap
            (λ (b : Bool).
              reverse_aux (live user sequence (e ∷ before) es)
                (if b then (e.0.user_key, e.1) ∷ live_back before else live_back before))
            (sym alive)
        ∙ reverse-live (e ∷ before) es
    | inr dead ↦
        ap
          (λ (b : Bool).
            reverse_aux
              (if b
                then (e.0.user_key, e.1) ∷ live user sequence (e ∷ before) es
                else live user sequence (e ∷ before) es)
              (live_back before))
          dead
        ∙ ap
            (λ (b : Bool).
              reverse_aux (live user sequence (e ∷ before) es)
                (if b then (e.0.user_key, e.1) ∷ live_back before else live_back before))
            (sym dead)
        ∙ reverse-live (e ∷ before) es
  ]

  -- No user key is above one in front of it.
  abbrev pub IsFalling : List Entry → Type 0
  IsFalling [] = Unit {0}
  IsFalling (e ∷ es) =
      All (λ x. user.compare x.0.user_key e.0.user_key ≢ Ordering.gt) es × IsFalling es

  -- Whether the walk breaks off at an entry.
  abbrev pub breaks : Held → ParsedInternalKey → Bool
  breaks h key = elim h.type [
    | deletion ↦ false
    | value ↦ is_visible user sequence key && is_lt (user.compare key.user_key h.key)
  ]

  abbrev pub taken : Entry → Held
  taken e = elim e.0.type [
    | deletion ↦ record { type = deletion; key = []; held = [] }
    | value ↦ record { type = value; key = e.0.user_key; held = e.1 }
  ]

  -- What the walk holds behind an entry that it passes.
  abbrev pub held_behind : Held → Entry → Held
  held_behind h e = if is_visible user sequence e.0 then taken e else h

  -- What the walk holds at its end, with the entries before and behind.
  abbrev pub walk_back : Held → List Entry → List Entry → Held × List Entry × List Entry
  walk_back h [] after = (h, [], after)
  walk_back h (e ∷ before) after =
      let past = walk_back (held_behind h e) before (e ∷ after) in
      if breaks h e.0 then (h, e ∷ before, after) else past

  pub walk_back-stop :
      (h : Held) (e : Entry) (before after : List Entry)
      → breaks h e.0 ≡ true
      → walk_back h (e ∷ before) after ≡ (h, e ∷ before, after)
  walk_back-stop h e before after stop = rw stop refl

  pub walk_back-pass :
      (h : Held) (e : Entry) (before after : List Entry)
      → breaks h e.0 ≡ false
      → walk_back h (e ∷ before) after ≡ walk_back (held_behind h e) before (e ∷ after)
  walk_back-pass h e before after pass = rw pass refl

  -- What the walk will have found if the entries before do not cover it.
  abbrev pub pending : Held → List Entry → List (List ℕ × List ℕ)
  pending h before = elim h.type [
    | deletion ↦ []
    | value ↦ if covered user sequence before h.key then [] else (h.key, h.held) ∷ []
  ]

  abbrev pub IsAbove : Held → List Entry → Type 0
  IsAbove h before =
      h.type ≡ value → All (λ x. user.compare x.0.user_key h.key ≢ Ordering.gt) before

  module _ (o : IsOrder user.compare) where
    covered-above :
        (before : List Entry) (e : Entry) (k : List ℕ)
        → All (λ x. user.compare x.0.user_key e.0.user_key ≢ Ordering.gt) before
        → user.compare e.0.user_key k ≡ Ordering.lt
        → covered user sequence before k ≡ false
    covered-above [] e k h less = refl
    covered-above (x ∷ before) e k (p, h) less = ground (
      arith,
      Order.le_lt_trans user.compare o x.0.user_key e.0.user_key k,
      covered-above before e k h less,
    )

    -- A walk that breaks off has found what it holds.
    pending-stop :
        (h : Held) (e : Entry) (before : List Entry)
        → IsFalling (e ∷ before)
        → breaks h e.0 ≡ true
        → (h.type ≡ value) × (pending h (e ∷ before) ≡ (h.key, h.held) ∷ [])
    pending-stop h e before falling stop = elim (ValueType-cases h.type) [
      | inl t ↦ absurd (ground (arith, t, stop))
      | inr t ↦ (
        t,
        ground (
          arith,
          t,
          stop,
          covered-above (e ∷ before) e h.key
              (ground (arith, compare_refl user.compare o e.0.user_key), falling.0),
        ),
      )
    ]

    pending-pass :
        (h : Held) (e : Entry) (before : List Entry)
        → IsAbove h (e ∷ before)
        → breaks h e.0 ≡ false
        → pending h (e ∷ before) ++ live_back (e ∷ before)
          ≡ pending (held_behind h e) before ++ live_back before
    pending-pass h e before above pass = elim (ValueType-cases h.type) [
      | inl t ↦ elim (ValueType-cases e.0.type) [
        | inl u ↦ ground (arith, t, u)
        | inr u ↦ ground (arith, t, u)
      ]
      | inr t ↦
          let le = (above t).0 in
          elim (ValueType-cases e.0.type) [
            | inl u ↦ ground (arith, t, u, le, pass)
            | inr u ↦ ground (arith, t, u, le, pass)
          ]
    ]

    IsAbove-behind :
        (h : Held) (e : Entry) (before : List Entry)
        → IsFalling (e ∷ before)
        → IsAbove h (e ∷ before)
        → IsAbove (held_behind h e) before
    IsAbove-behind h e before falling above = elim (Bool-cases (is_visible user sequence e.0)) [
      | inl seen ↦ elim (ValueType-cases e.0.type) [
        | inl t ↦ λ v. absurd (ground (arith, seen, t, v))
        | inr t ↦
            let key : (held_behind h e).key ≡ e.0.user_key = ground (arith, seen, t) in
            λ v. rw key falling.0
      ]
      | inr unseen ↦
          let same : held_behind h e ≡ h = rw unseen refl in
          subst (λ (h : Held). IsAbove h before) (sym same) (λ v. (above v).1)
    ]

    module _ (P : Entry → Type 0) (h : Held) (before : List Entry)
        (end : Held × List Entry × List Entry) where
      -- The end of a walk back that found the next live entry.
      pub record Finds : Type 0 where
        pub is_value : end.0.type ≡ value
        pub lives : pending h before ++ live_back before ≡ (end.0.key, end.0.held) ∷ live_back end.1
        pub falling : IsFalling end.1
        pub hold : All P end.1
        pub short : length end.1 ≤ length before

      abbrev pub Outcome : Type 0
      Outcome = ((end.0.type ≡ deletion) × (pending h before ++ live_back before ≡ [])) ⊎ Finds

    Outcome-pass :
        (P : Entry → Type 0) (h later : Held) (e : Entry) (before : List Entry)
        (end : Held × List Entry × List Entry)
        → pending h (e ∷ before) ++ live_back (e ∷ before)
          ≡ pending later before ++ live_back before
        → Outcome P later before end
        → Outcome P h (e ∷ before) end
    Outcome-pass P h later e before end same outcome = elim outcome [
      | inl (dead, empty) ↦ inl (dead, same ∙ empty)
      | inr r ↦ inr (record {
        is_value = r.is_value;
        lives = same ∙ r.lives;
        falling = r.falling;
        hold = r.hold;
        short = omega (arith, r.short);
      })
    ]

    -- A walk back over entries sorted by user key ends behind the next live one.
    pub walk_back-live :
        (P : Entry → Type 0) (h : Held) (before after : List Entry)
        → IsFalling before
        → IsAbove h before
        → All P before
        → Outcome P h before (walk_back h before after)
    walk_back-live P h [] after falling above holds = elim (ValueType-cases h.type) [
      | inl t ↦ inl (t, ground (arith, t))
      | inr t ↦ inr (record {
        is_value = t;
        lives = ground (arith, t);
        falling = tt;
        hold = tt;
        short = omega arith;
      })
    ]
    walk_back-live P h (e ∷ before) after falling above holds = elim (Bool-cases (breaks h e.0)) [
      | inl stop ↦
          let (t, found) = pending-stop h e before falling stop in
          subst (λ end. Outcome P h (e ∷ before) end) (sym (walk_back-stop h e before after stop))
            (inr (record {
              is_value = t;
              lives = ap (λ (l : List (List ℕ × List ℕ)). l ++ live_back (e ∷ before)) found;
              falling = falling;
              hold = holds;
              short = omega arith;
            }))
      | inr pass ↦
          subst (λ end. Outcome P h (e ∷ before) end) (sym (walk_back-pass h e before after pass))
            (Outcome-pass P h (held_behind h e) e before
              (walk_back (held_behind h e) before (e ∷ after)) (pending-pass h e before above pass)
              (walk_back-live P (held_behind h e) before (e ∷ after) falling.1
                (IsAbove-behind h e before falling above) holds.1))
    ]
