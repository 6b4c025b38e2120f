-- ===== src/Db/MemTable/Get.antt =====
-- What a reader gets from a memtable: the newest entry that it may see.
use quas_db.Base.{
  ℕ, ◌+◌, ◌^◌, ◌<◌, ◌≤◌, ◌≡◌, ◌≢◌, ◌⊎◌, inl, inr, refl, sym, ap, ◌∙◌, Bool, true, false, ◌&&◌, leb,
  le→leb, if◌then◌else◌, Bool-cases, none, some, Option-cases, List, [], ◌∷◌, length, All, arith,
}
use quas_db.Util.Order.{Ordering, IsOrder, is_eq}
use quas_db.Util.Comparator.{Comparator}
use quas_db.Db.Format.{make_lookup_key, memtable_key}
use quas_db.Db.Format.Compare.{key_order}
use quas_db.Db.Format.Lookup.{seek_key, lookup_user_key-make}
use quas_db.Db.OrderedSet.{OrderedSet, IsOrderedSet}
use quas_db.Db.MemTable.{Answer, absent, answer_from, key_compare, add, get}
use quas_db.Db.MemTable.Entry.{answer_of, answer_from-entry_bytes}
use quas_db.Db.MemTable.Order.{
  Entry, bytes_of, key_of, IsEntry, IsVisible, key_compare-bytes_of, key_compare-memtable_key,
  visible-not-lt, not-lt-visible, first_newer, other_behind, different_sequences,
}

abbrev pub In : Entry → List Entry → Type 0
In e [] = ⊥
In e (x ∷ xs) = (e ≡ x) ⊎ In e xs

-- The newest entry stands first, and each has a sequence number of its own.
abbrev pub IsFalling : List Entry → Type 0
IsFalling [] = Unit {0}
IsFalling (e ∷ es) = All (λ x. x.sequence < e.sequence) es × IsFalling es

All-In : (P : Entry → Type 0) (es : List Entry) (e : Entry) → All P es → In e es → P e
All-In P [] e h i = absurd i
All-In P (x ∷ xs) e (p, h) (inl same) = rw same p
All-In P (x ∷ xs) e (p, h) (inr i) = All-In P xs e h i

module _ (user : Comparator) (key : List ℕ) (s : ℕ) where
  abbrev is_visible : Entry → Bool
  is_visible e = is_eq (user.compare e.user_key key) && leb e.sequence s

  -- The first of the entries that is visible, the newest being the first.
  unfoldable pub visible : List Entry → Answer
  visible [] = absent
  visible (e ∷ es) =
      let older = visible es in if is_visible e then answer_of e.type e.val else older

  is_visible-true : (e : Entry) → IsVisible user key s e → is_visible e ≡ true
  is_visible-true e (same, seen) = rw same (le→leb e.sequence s seen)

  is_visible_sound : (e : Entry) → is_visible e ≡ true → IsVisible user key s e
  is_visible_sound e h = ground arith

  visible_none :
      (es : List Entry) → ((e : Entry) → In e es → IsVisible user key s e → ⊥) → visible es ≡ absent
  unfolding visible
  visible_none [] h = refl
  visible_none (e ∷ es) h = elim (Bool-cases (is_visible e)) [
    | inl seen ↦ absurd (h e (inl refl) (is_visible_sound e seen))
    | inr hidden ↦ rw hidden (visible_none es (λ x i v. h x (inr i) v))
  ]

  visible_newest :
      (es : List Entry) (e : Entry)
      → IsFalling es
      → In e es
      → IsVisible user key s e
      → ((x : Entry) → In x es → IsVisible user key s x → x.sequence ≤ e.sequence)
      → visible es ≡ answer_of e.type e.val
  unfolding visible
  visible_newest [] e f i v newest = absurd i
  visible_newest (x ∷ xs) e (above, f) (inl same) v newest =
      rw (is_visible-true x (rw same at v)) (ap (λ (y : Entry). answer_of y.type y.val) (sym same))
  visible_newest (x ∷ xs) e (above, f) (inr i) v newest = elim (Bool-cases (is_visible x)) [
    | inl seen ↦ absurd (
        omega (
          arith,
          newest x (inl refl) (is_visible_sound x seen),
          All-In (λ y. y.sequence < x.sequence) xs e above i,
        ))
    | inr hidden ↦ rw hidden (visible_newest xs e f i v (λ y j w. newest y (inr j) w))
  ]

module _ {T : Type 0} (user : Comparator) (o : IsOrder user.compare) (table : OrderedSet (List ℕ) T)
    (Holds : T → List ℕ → Type 0) (laws : IsOrderedSet (key_compare user) table Holds) where
  -- The entries added one after the other, the last one first.
  unfoldable pub fill : List Entry → T
  fill [] = table.empty
  fill (e ∷ es) = add user table (fill es) e.sequence e.type e.user_key e.val

  fresh :
      (es : List Entry) (e x : Entry)
      → All IsEntry es
      → IsEntry e
      → All (λ y. y.sequence < e.sequence) es
      → In x es
      → key_compare user (bytes_of x) (bytes_of e) ≢ Ordering.eq
  fresh es e x are is above i =
      rw (key_compare-bytes_of user x e (All-In IsEntry es x are i) is)
        (different_sequences user x e (All-In (λ y. y.sequence < e.sequence) es x above i))

  Holds-entry :
      (es : List Entry) (t : List ℕ)
      → All IsEntry es
      → IsFalling es
      → Holds (fill es) t
      → (e : Entry) × In e es × (t ≡ bytes_of e)
  unfolding fill add
  Holds-entry [] t are f h = absurd (laws.not_empty t h)
  Holds-entry (e ∷ es) t (is, are) (above, f) h =
      let distinct : ((x : List ℕ)
          → Holds (fill es) x
          → key_compare user x (bytes_of e) ≢ Ordering.eq) =
        λ x held.
          let (y, i, same) = Holds-entry es x are f held in rw same (fresh es e y are is above i) in
      elim ((laws.insert_holds (fill es) (bytes_of e) t distinct).0 h) [
        | inl new ↦ (e, inl refl, new)
        | inr old ↦ let (x, i, same) = Holds-entry es t are f old in (x, inr i, same)
      ]

  Holds-entries :
      (es : List Entry) (e : Entry)
      → All IsEntry es
      → IsFalling es
      → In e es
      → Holds (fill es) (bytes_of e)
  unfolding fill add
  Holds-entries [] e are f i = absurd i
  Holds-entries (x ∷ es) e (is, are) (above, f) i =
      let distinct : ((t : List ℕ)
          → Holds (fill es) t
          → key_compare user t (bytes_of x) ≢ Ordering.eq) =
        λ t held.
          let (y, j, same) = Holds-entry es t are f held in rw same (fresh es x y are is above j) in
      (laws.insert_holds (fill es) (bytes_of x) (bytes_of e) distinct).1
        (elim i [ inl same ↦ inl (ap bytes_of same) | inr j ↦ inr (Holds-entries es e are f j) ])

  module _ (es : List Entry) (are : All IsEntry es) (f : IsFalling es) (key : List ℕ) (s : ℕ)
      (hk : length key + 8 < 2 ^ 32) (hs : s < 2 ^ 56) where
    at_lookup :
        (e : Entry)
        → In e es
        → key_compare user (bytes_of e) (memtable_key (make_lookup_key key s))
          ≡ key_order user (key_of e) (seek_key key s)
    at_lookup e i = key_compare-memtable_key user e key s (All-In IsEntry es e are i) hk hs

    get_nothing :
        table.seek (fill es) (memtable_key (make_lookup_key key s)) ≡ none
        → get user table (fill es) (make_lookup_key key s) ≡ visible user key s es
    unfolding get
    get_nothing e =
        rw (get, e)
          (sym (
            visible_none user key s es (λ x i v. visible-not-lt user o key s x v (
              sym (at_lookup x i)
              ∙ laws.seek_none (fill es) (memtable_key (make_lookup_key key s)) (bytes_of x) e
                  (Holds-entries es x are f i)))))

    get_entry :
        (e : Entry)
        → In e es
        → table.seek (fill es) (memtable_key (make_lookup_key key s)) ≡ some (bytes_of e)
        → (if is_eq (user.compare e.user_key key) then answer_of e.type e.val else absent)
          ≡ visible user key s es
    get_entry e i found_it = elim (Bool-cases (is_eq (user.compare e.user_key key))) [
      | inl same ↦ rw same (
          sym (
            visible_newest user key s es e f i
              (eq_of same, not-lt-visible user o key s e (eq_of same) from)
              (λ x j v. first_newer user o key s e x (eq_of same) v.0 (first x j v))))
      | inr other ↦ rw other (
          sym (
            visible_none user key s es
              (λ x j v. first x j v (other_behind user o key s e x (ne_of other) from v.0))))
    ]
      where
        target : List ℕ
        target = memtable_key (make_lookup_key key s)

        eq_of :
            is_eq (user.compare e.user_key key) ≡ true → user.compare e.user_key key ≡ Ordering.eq
        eq_of h = ground arith

        ne_of :
            is_eq (user.compare e.user_key key) ≡ false → user.compare e.user_key key ≢ Ordering.eq
        ne_of h = ground arith

        from : key_order user (key_of e) (seek_key key s) ≢ Ordering.lt
        from = rw (at_lookup e i) at (laws.seek_from (fill es) target (bytes_of e) found_it)

        first :
            (x : Entry)
            → In x es
            → IsVisible user key s x
            → key_order user (key_of e) (key_of x) ≢ Ordering.gt
        first x j v =
            rw
              (key_compare-bytes_of user e x (All-In IsEntry es e are i)
                (All-In IsEntry es x are j))
              at
              (laws.seek_first (fill es) target (bytes_of e) (bytes_of x) found_it
                (Holds-entries es x are f j) (rw (at_lookup x j) (visible-not-lt user o key s x v)))

    -- Get answers with the newest of the entries of the key that are not newer than the lookup key's
    -- sequence number, a deletion with NotFound, and with false where there is none. The table keeps
    -- its contract, the entries were added with rising sequence numbers below 2^56, and the sizes fit
    -- their 32-bit prefixes.
    pub get-fill : get user table (fill es) (make_lookup_key key s) ≡ visible user key s es
    unfolding get
    get-fill = elim (Option-cases (table.seek (fill es) (memtable_key (make_lookup_key key s)))) [
      | inl nothing ↦ get_nothing nothing
      | inr (t, found_it) ↦
          let (e, i, same) =
            Holds-entry es t are f
              (laws.seek_holds (fill es) (memtable_key (make_lookup_key key s)) t found_it) in
          let found_e : table.seek (fill es) (memtable_key (make_lookup_key key s))
              ≡ some (bytes_of e) =
            found_it ∙ ap some same in
          get_found e found_e ∙ (answer e i ∙ get_entry e i found_e)
    ]
      where
        get_found :
            (e : Entry)
            → table.seek (fill es) (memtable_key (make_lookup_key key s)) ≡ some (bytes_of e)
            → get user table (fill es) (make_lookup_key key s) ≡ answer_from user key (bytes_of e)
        get_found e found_e = rw (get, found_e, lookup_user_key-make key s) refl

        answer :
            (e : Entry)
            → In e es
            → answer_from user key (bytes_of e)
              ≡ (if is_eq (user.compare e.user_key key) then answer_of e.type e.val else absent)
        answer e i =
            let (small, size, val_size) = All-In IsEntry es e are i in
            answer_from-entry_bytes user e.sequence e.type e.user_key e.val key small size val_size
