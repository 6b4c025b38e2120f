-- ===== src/Table/Block/Spells.antt =====
-- What bytes spell which entries, and the step of the iterator over one of them.
use quas_db.Base.{
  ℕ, ◌+◌, ◌-◌, ◌^◌, ◌<◌, ◌≤◌, ◌≡◌, refl, sym, ap, ◌∙◌, true, false, ltb, leb, some, List, [], ◌∷◌,
  ◌++◌, length, length-append, length-take, length-drop, append_assoc, take, drop, take_front,
  drop_front, take-append-drop, drop-append, arith,
}
use quas_db.Table.Block.{
  Iter, decode_entry, next_entry_offset, valid, parse_entry, parse_next_key, advance_restart,
}
use quas_db.Table.Block.Entry.{
  entry_code, entry_code-body, length-entry_code, decode_entry-entry_code,
}

-- The bytes spell the entries behind the key `last`, each with some prefix left out that it shares
-- with the key before.
abbrev pub Spells : List ℕ → List (List ℕ × List ℕ) → List ℕ → Type 0
Spells last [] bytes = bytes ≡ []
Spells last ((key, value) ∷ es) bytes =
    (shared : ℕ) × (rest : List ℕ) × (bytes ≡ entry_code shared key value ++ rest)
    × (shared ≤ length last)
    × (shared ≤ length key)
    × (take shared last ≡ take shared key)
    × (length key + length value < 2 ^ 32)
    × Spells key es rest

module _ (contents : List ℕ) (restarts num_restarts : ℕ) where
  -- The iterator will go on at the entries.
  pub record At (es : List (List ℕ × List ℕ)) (it : Iter) : Type 0 where
    pub behind : List ℕ
    pub bytes : List ℕ
    pub split : take restarts contents ≡ behind ++ bytes
    pub place : next_entry_offset contents restarts num_restarts it ≡ length behind
    pub spells : Spells it.key es bytes

  -- The iterator is on an entry, and will go on at others.
  pub record On (key value : List ℕ) (es : List (List ℕ × List ℕ)) (it : Iter) : Type 0 where
    pub is_valid : valid contents restarts num_restarts it ≡ true
    pub has_key : it.key ≡ key
    pub has_value : it.value ≡ value
    pub ahead : At es it

  module _ (all : restarts ≤ length contents) (small : restarts < 2 ^ 32) where
    pub whole :
        (behind bytes : List ℕ)
        → take restarts contents ≡ behind ++ bytes
        → length behind + length bytes ≡ restarts
    whole behind bytes e =
        omega (arith, ap length e, length-take restarts contents, length-append behind bytes)

    parse_entry-On :
        (it : Iter) (behind rest : List ℕ) (shared : ℕ) (key value : List ℕ)
        (es : List (List ℕ × List ℕ))
        → take restarts contents ≡ behind ++ (entry_code shared key value ++ rest)
        → shared ≤ length it.key
        → shared ≤ length key
        → take shared it.key ≡ take shared key
        → length key + length value < 2 ^ 32
        → Spells key es rest
        → length behind < restarts
        → (it' : Iter) × (parse_entry contents restarts num_restarts it (length behind)
            ≡ (it', true))
          × (it'.status ≡ it.status)
          × On key value es it'
    unfolding parse_entry
    parse_entry-On it behind rest shared key value es split hs hk same fits spells before = (
      it',
      parsed,
      refl,
      record {
        is_valid = ground arith;
        has_key = has_key;
        has_value = has_value;
        ahead = record {
          behind = behind ++ entry_code shared key value;
          bytes = rest;
          split = split ∙ sym (append_assoc behind (entry_code shared key value) rest);
          place = place;
          spells = rw has_key spells;
        };
      },
    )
      where
        body : List ℕ
        body = drop shared key ++ (value ++ rest)

        it' : Iter
        it' = record it {
          current = length behind;
          restart_index =
              advance_restart contents restarts num_restarts num_restarts (length behind)
                it.restart_index;
          key = take shared it.key ++ take (length key - shared) body;
          value_start = restarts - length body + (length key - shared);
          value = take (length value) (drop (length key - shared) body);
        }

        decoded :
            decode_entry (drop (length behind) (take restarts contents))
            ≡ some (record {
              shared = shared;
              non_shared = length key - shared;
              value_length = length value;
              rest = body;
            })
        decoded =
            ap (λ (p : List ℕ). decode_entry (drop (length behind) p)) split
            ∙ ap decode_entry (drop-append behind (entry_code shared key value ++ rest))
            ∙ decode_entry-entry_code shared key value rest hk fits

        long_enough : ltb (length it.key) shared ≡ false
        long_enough = ground arith

        parsed : parse_entry contents restarts num_restarts it (length behind) ≡ (it', true)
        parsed = rw (parse_entry, decoded, long_enough) refl

        has_key : it'.key ≡ key
        has_key =
            ap (λ (t : List ℕ). take shared it.key ++ t)
              (take_front (length key - shared) (drop shared key) (value ++ rest)
                (sym (length-drop shared key)))
            ∙ ap (λ (t : List ℕ). t ++ drop shared key) same
            ∙ take-append-drop shared key

        has_value : it'.value ≡ value
        has_value =
            ap (take (length value)) (
              drop_front (length key - shared) (drop shared key) (value ++ rest)
                (sym (length-drop shared key)))
            ∙ take_front (length value) value rest refl

        place :
            next_entry_offset contents restarts num_restarts it'
            ≡ length (behind ++ entry_code shared key value)
        place = omega (
          arith,
          ap length has_value,
          length-append behind (entry_code shared key value),
          length-append (entry_code shared key value) rest,
          whole behind (entry_code shared key value ++ rest) split,
          length-append (drop shared key) (value ++ rest),
          length-append value rest,
          length-drop shared key,
          entry_code-body shared key value,
        )

    -- ParseNextKey moves on to the entry that comes next, and past the last one it makes the iterator
    -- invalid.
    pub parse_next_key-On :
        (it : Iter) (key value : List ℕ) (es : List (List ℕ × List ℕ))
        → At ((key, value) ∷ es) it
        → (it' : Iter) × (parse_next_key contents restarts num_restarts it ≡ (it', true))
          × (it'.status ≡ it.status)
          × On key value es it'
    unfolding parse_next_key
    parse_next_key-On it key value es a =
        let (shared, rest, split, hs, hk, same, fits, spells) = a.spells in
        let long : length a.behind < restarts = omega (
          arith,
          whole a.behind a.bytes a.split,
          ap length split,
          length-append (entry_code shared key value) rest,
          length-entry_code shared key value (omega arith) (omega arith) (omega arith),
        ) in
        let (it', parsed, status, on) =
          parse_entry-On it a.behind rest shared key value es
            (a.split ∙ ap (λ (t : List ℕ). a.behind ++ t) split) hs hk same fits spells long in
        let inside : leb restarts (length a.behind) ≡ false = ground arith in
        (it', rw (a.place, inside) parsed, status, on)

    pub parse_next_key-end :
        (it : Iter)
        → At [] it
        → parse_next_key contents restarts num_restarts it
          ≡ (record it { current = restarts; restart_index = num_restarts }, false)
    unfolding parse_next_key
    parse_next_key-end it a =
        let past : leb restarts (length a.behind) ≡ true =
          ground (arith, whole a.behind a.bytes a.split, ap length a.spells) in
        rw (a.place, past) refl
