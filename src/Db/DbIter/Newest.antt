-- ===== src/Db/DbIter/Newest.antt =====
-- In the order of internal keys, what a snapshot sees are the newest entries that it reaches.
use quas_db.Base.{
  ℕ, ◌<◌, ◌≡◌, refl, ap, ◌∙◌, Bool, false, not, ◌&&◌, ◌||◌, ltb, Bool-cases, ◌⊎◌, inl, inr,
  if◌then◌else◌, List, [], ◌∷◌, All, arith,
}
use mathlib.Core.List.{reverse_aux}
use quas_db.Util.Order.{Ordering, flip, IsOrder, is_eq}
use quas_db.Util.Comparator.{Comparator}
use quas_db.Db.Format.{deletion, value, ParsedInternalKey}
use quas_db.Db.DbIter.Live.{Entry, live, is_live, is_visible, covered, All-zip, ValueType-cases}

module _ (user : Comparator) (sequence : ℕ) where
  -- A newer entry of the user key, which the snapshot reaches, is among the entries.
  abbrev pub is_shadowed : List Entry → ParsedInternalKey → Bool
  is_shadowed [] key = false
  is_shadowed (x ∷ xs) key =
      (is_visible user sequence x.0
        && (is_eq (user.compare x.0.user_key key.user_key) && ltb key.sequence x.0.sequence))
      || is_shadowed xs key

  abbrev pub is_newest : List Entry → ParsedInternalKey → Bool
  is_newest all key = elim key.type [
    | deletion ↦ false
    | value ↦ is_visible user sequence key && not (is_shadowed all key)
  ]

  -- The values of some entries that no entry of `all` shadows, as user keys with values.
  abbrev pub newest : (all : List Entry) → List Entry → List (List ℕ × List ℕ)
  newest all [] = []
  newest all (e ∷ es) =
      let later = newest all es in if is_newest all e.0 then (e.0.user_key, e.1) ∷ later else later

  -- By user key, and the newer first.
  abbrev pub Precedes : Entry → Entry → Type 0
  Precedes a b =
      (user.compare a.0.user_key b.0.user_key ≡ Ordering.lt)
      ⊎ ((user.compare a.0.user_key b.0.user_key ≡ Ordering.eq) × (b.0.sequence < a.0.sequence))

  abbrev pub IsSorted : List Entry → Type 0
  IsSorted [] = Unit {0}
  IsSorted (e ∷ es) = All (Precedes e) es × IsSorted es

  is_shadowed-reverse :
      (before es : List Entry) (key : ParsedInternalKey)
      → is_shadowed (reverse_aux before es) key ≡ (is_shadowed before key || is_shadowed es key)
  is_shadowed-reverse [] es key = refl
  is_shadowed-reverse (x ∷ before) es key = is_shadowed-reverse before (x ∷ es) key ∙ ground arith

  module _ (o : IsOrder user.compare) where
    shadowed-covered :
        (before : List Entry) (e : Entry)
        → All (λ x. Precedes x e) before
        → is_shadowed before e.0 ≡ covered user sequence before e.0.user_key
    shadowed-covered [] e h = refl
    shadowed-covered (x ∷ before) e (p, h) = ground (arith, p, shadowed-covered before e h)

    shadowed-behind :
        (e : Entry) (es : List Entry) → All (Precedes e) es → is_shadowed es e.0 ≡ false
    unfolding flip
    shadowed-behind e [] h = refl
    shadowed-behind e (x ∷ es) (p, h) =
        ground (arith, p, shadowed-behind e es h, o.flipped e.0.user_key x.0.user_key)

    is_newest-is_live :
        (before : List Entry) (e : Entry) (es : List Entry)
        → All (λ x. Precedes x e) before
        → All (Precedes e) es
        → is_newest (reverse_aux before (e ∷ es)) e.0 ≡ is_live user sequence before e.0
    is_newest-is_live before e es behind ahead =
        let split : is_shadowed (reverse_aux before (e ∷ es)) e.0
            ≡ covered user sequence before e.0.user_key =
          is_shadowed-reverse before (e ∷ es) e.0
          ∙ ground (arith, shadowed-covered before e behind, shadowed-behind e es ahead) in
        elim (ValueType-cases e.0.type) [
          | inl t ↦ ground (arith, t)
          | inr t ↦ ground (arith, t, split)
        ]

    live-newest_from :
        (before es : List Entry)
        → All (λ e. All (λ x. Precedes x e) before) es
        → IsSorted es
        → live user sequence before es ≡ newest (reverse_aux before es) es
    live-newest_from before [] behind sorted = refl
    live-newest_from before (e ∷ es) (behind, later) (ahead, sorted) =
        let same = is_newest-is_live before e es behind ahead in
        let rest =
          live-newest_from (e ∷ before) es
            (All-zip (λ y. All (λ x. Precedes x y) before) (Precedes e)
              (λ y. All (λ x. Precedes x y) (e ∷ before)) es (λ y. λ h. λ p. (p, h)) later ahead)
            sorted in
        elim (Bool-cases (is_live user sequence before e.0)) [
          | inl alive ↦
              rw (alive, same ∙ alive)
                (ap (λ (l : List (List ℕ × List ℕ)). (e.0.user_key, e.1) ∷ l) rest)
          | inr dead ↦ rw (dead, same ∙ dead) rest
        ]

    -- Of entries sorted by user key, the newer first, those are live that are values within the
    -- snapshot and that no newer entry of their user key within the snapshot shadows.
    pub live-newest : (es : List Entry) → IsSorted es → live user sequence [] es ≡ newest es es
    live-newest es sorted = live-newest_from [] es (each es) sorted
      where
        each : (es : List Entry) → All (λ (e : Entry). Unit {0}) es
        each [] = tt
        each (e ∷ es) = (tt, each es)
