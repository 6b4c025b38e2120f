-- ===== src/Util/Status/Message.antt =====
-- The text of a status with one message, and what becomes of the text with two: the store of the
-- blank behind the colon goes to offset 6 + len2, which is the right place only where the two
-- messages have the same length.
use quas_db.Base.{
  ℕ, suc, ◌+◌, ◌-◌, ◌%◌, ◌^◌, ◌≤◌, ◌<◌, ◌≡◌, refl, sym, ap, ◌∙◌, ◌==◌, false, List, [], ◌∷◌, ◌++◌,
  length, take, drop, length-append, length-take, length-drop, append_assoc, append-nil, take_front,
  drop_front, arith,
}
use quas_db.Util.Coding.{encode_fixed32, decode_fixed32}
use quas_db.Util.Coding.Fixed.{decode_fixed32-encode_fixed32, length-encode_fixed32}
use quas_db.Util.Status.{Code, code_byte, write_at, make_state, message}

-- A write behind a prefix, and a write over a part.
write_at_shift :
    (pre l src : List ℕ) (k : ℕ)
    → write_at (length pre + k) src (pre ++ l) ≡ pre ++ write_at k src l
write_at_shift [] l src k = ap (λ n. write_at n src l) (plain k)
  where
    plain : (k : ℕ) → 0 + k ≡ k
    plain k = omega arith
write_at_shift (x ∷ pre) l src k =
    ap (λ n. write_at n src (x ∷ (pre ++ l))) (next (length pre) k)
    ∙ rw (move (length pre + k) (length src)) (ap (λ t. x ∷ t) (write_at_shift pre l src k))
  where
    next : (n k : ℕ) → suc n + k ≡ suc (n + k)
    next n k = omega arith

    move : (n m : ℕ) → suc n + m ≡ suc (n + m)
    move n m = omega arith

write_over : (old l src : List ℕ) → length old ≡ length src → write_at 0 src (old ++ l) ≡ src ++ l
write_over old l src e = ap (λ t. src ++ t) (drop_front (0 + length src) old l (omega arith))

length-write_at :
    (k : ℕ) (src l : List ℕ) → k + length src ≤ length l → length (write_at k src l) ≡ length l
length-write_at k src l h = omega (
  arith,
  length-append (take k l) (src ++ drop (k + length src) l),
  length-append src (drop (k + length src) l),
  length-take k l,
  length-drop (k + length src) l,
)

-- The write at `k` bytes behind a prefix of `at` bytes.
write_behind :
    (at : ℕ) (pre old l src : List ℕ)
    → at ≡ length pre
    → length old ≡ length src
    → write_at at src (pre ++ (old ++ l)) ≡ pre ++ (src ++ l)
write_behind at pre old l src e f =
    ap (λ n. write_at n src (pre ++ (old ++ l))) (rw e (plain (length pre)))
    ∙ write_at_shift pre (old ++ l) src 0
    ∙ ap (λ t. pre ++ t) (write_over old l src f)
  where
    plain : (k : ℕ) → k ≡ k + 0
    plain k = omega arith

-- The three writes that every status has.
first_writes :
    (n c : ℕ) (h4 h1 f1 l m1 : List ℕ)
    → length h4 ≡ 4
    → length h1 ≡ 1
    → length f1 ≡ length m1
    → write_at 5 m1 (write_at 4 (c ∷ []) (write_at 0 (encode_fixed32 n) (h4 ++ (h1 ++ (f1 ++ l)))))
      ≡ (encode_fixed32 n ++ (c ∷ [])) ++ (m1 ++ l)
first_writes n c h4 h1 f1 l m1 e4 e1 ef =
    let size = encode_fixed32 n in
    let front = size ++ (c ∷ []) in
    ap (λ t. write_at 5 m1 (write_at 4 (c ∷ []) t))
      (write_over h4 (h1 ++ (f1 ++ l)) size (omega (arith, length-encode_fixed32 n)))
    ∙ ap (write_at 5 m1)
        (write_behind 4 size h1 (f1 ++ l) (c ∷ []) (sym (length-encode_fixed32 n)) e1)
    ∙ ap (write_at 5 m1) (sym (append_assoc size (c ∷ []) (f1 ++ l)))
    ∙ write_behind 5 front f1 l m1
        (omega (arith, length-append size (c ∷ []), length-encode_fixed32 n)) ef

-- The text of a finished buffer.
message-buffer :
    (n c : ℕ) (text : List ℕ)
    → n < 2 ^ 32
    → length text ≡ n
    → message ((encode_fixed32 n ++ (c ∷ [])) ++ text) ≡ text
unfolding message
message-buffer n c text h e =
    ap (λ t. take (decode_fixed32 t) (drop 5 t)) (append_assoc (encode_fixed32 n) (c ∷ []) text)
    ∙ ap (λ k. take k (drop 5 (encode_fixed32 n ++ (c ∷ text))))
        (decode_fixed32-encode_fixed32 n (c ∷ text) h)
    ∙ ap (take n) (
        ap (drop 5) (sym (append_assoc (encode_fixed32 n) (c ∷ []) text))
        ∙ drop_front 5 (encode_fixed32 n ++ (c ∷ [])) text
            (omega (arith, length-append (encode_fixed32 n) (c ∷ []), length-encode_fixed32 n)))
    ∙ ap (take n) (sym (append-nil text))
    ∙ take_front n text [] (sym e)

-- The writes of a status with two messages, once the casts to uint32_t change nothing.
two_writes :
    (fresh : List ℕ) (c : Code) (m1 m2 : List ℕ)
    → 0 < length m2
    → length m1 + length m2 + 2 < 2 ^ 32
    → make_state fresh c m1 m2
      ≡ write_at (7 + length m1) m2 (
          write_at (6 + length m2) (b' ' ∷ []) (
            write_at (5 + length m1) (b':' ∷ []) (
              write_at 5 m1 (
                write_at 4
                  (code_byte c ∷ [])
                  (write_at 0 (encode_fixed32 (length m1 + (2 + length m2))) fresh)))))
unfolding make_state
two_writes fresh c m1 m2 pos h = rw (small m1 (omega arith), small m2 (omega arith), test, whole)
  where
    small : (m : List ℕ) → length m < 2 ^ 32 → length m % 2 ^ 32 ≡ length m
    small m k = omega arith

    test : (length m2 == 0) ≡ false
    test = ground arith

    whole : (length m1 + (2 + length m2)) % 2 ^ 32 ≡ length m1 + (2 + length m2)
    whole = omega arith

-- `new char[size + 5]` returned `h4 ++ h1 ++ f1 ++ more`: four bytes for the size, one for the code,
-- those under the first message, and the others.
module _ (c : Code) (h4 h1 f1 m1 : List ℕ) (e4 : length h4 ≡ 4) (e1 : length h1 ≡ 1)
    (ef : length f1 ≡ length m1) where
  -- With one message the text is the message.
  pub message-one :
      length m1 < 2 ^ 32 → message (make_state (h4 ++ (h1 ++ (f1 ++ []))) c m1 []) ≡ m1
  unfolding make_state
  message-one h =
      let len1 = length m1 % 2 ^ 32 in
      let n = (len1 + 0) % 2 ^ 32 in
      ap message (first_writes n (code_byte c) h4 h1 f1 [] m1 e4 e1 ef)
      ∙ message-buffer n (code_byte c) (m1 ++ []) (omega arith) (omega (arith, length-append m1 []))
      ∙ append-nil m1

  module _ (x y : ℕ) (f2 m2 : List ℕ) (e2 : length f2 ≡ length m2) (pos : 0 < length m2)
      (fits : length m1 + length m2 + 2 < 2 ^ 32) where
    size : ℕ
    size = length m1 + (2 + length m2)

    front : List ℕ
    front = (encode_fixed32 size ++ (code_byte c ∷ [])) ++ m1

    length-front : length front ≡ 5 + length m1
    unfolding front
    length-front = omega (
      arith,
      length-append (encode_fixed32 size ++ (code_byte c ∷ [])) m1,
      length-append (encode_fixed32 size) (code_byte c ∷ []),
      length-encode_fixed32 size,
    )

    fresh : List ℕ
    fresh = h4 ++ (h1 ++ (f1 ++ (x ∷ y ∷ f2)))

    -- The buffer before the blank is stored.
    up_to_colon :
        make_state fresh c m1 m2
        ≡ write_at
            (7 + length m1)
            m2
            (write_at (6 + length m2) (b' ' ∷ []) (front ++ (b':' ∷ y ∷ f2)))
    unfolding fresh front size
    up_to_colon =
        two_writes fresh c m1 m2 pos fits
        ∙ ap
            (λ t.
              write_at (7 + length m1) m2
                (write_at (6 + length m2) (b' ' ∷ []) (write_at (5 + length m1) (b':' ∷ []) t)))
            (first_writes size (code_byte c) h4 h1 f1 (x ∷ y ∷ f2) m1 e4 e1 ef
              ∙ sym (append_assoc (encode_fixed32 size ++ (code_byte c ∷ [])) m1 (x ∷ y ∷ f2)))
        ∙ ap (λ t. write_at (7 + length m1) m2 (write_at (6 + length m2) (b' ' ∷ []) t))
            (write_behind (5 + length m1) front (x ∷ []) (y ∷ f2) (b':' ∷ []) (sym length-front)
              refl)

    -- The last copy, over any bytes where the second message goes.
    last_copy :
        (z : ℕ) (g : List ℕ)
        → length g ≡ length m2
        → message (write_at (7 + length m1) m2 (front ++ (b':' ∷ z ∷ g))) ≡ m1 ++ (b':' ∷ z ∷ m2)
    last_copy z g e =
        ap message (
          ap (write_at (7 + length m1) m2) (sym (append_assoc front (b':' ∷ z ∷ []) g))
          ∙ ap (λ t. write_at (7 + length m1) m2 ((front ++ (b':' ∷ z ∷ [])) ++ t))
              (sym (append-nil g))
          ∙ write_behind (7 + length m1) (front ++ (b':' ∷ z ∷ [])) g [] m2
              (omega (arith, length-append front (b':' ∷ z ∷ []), length-front)) e
          ∙ regroup z)
        ∙ message-buffer size (code_byte c) (m1 ++ (b':' ∷ z ∷ m2)) (unfold size in omega arith)
            (unfold size in omega (arith, length-append m1 (b':' ∷ z ∷ m2)))
      where
        regroup :
            (z : ℕ)
            → (front ++ (b':' ∷ z ∷ [])) ++ (m2 ++ [])
              ≡ (encode_fixed32 size ++ (code_byte c ∷ [])) ++ (m1 ++ (b':' ∷ z ∷ m2))
        regroup z = unfold front in simp (append_assoc, append-nil)

    -- Where the second message is the longer one, the byte behind the colon is never written: the
    -- text has there what the memory held, instead of a blank.
    pub message-unwritten :
        length m1 < length m2
        → message (make_state (h4 ++ (h1 ++ (f1 ++ (x ∷ y ∷ f2)))) c m1 m2) ≡ m1 ++ (b':' ∷ y ∷ m2)
    unfolding fresh
    message-unwritten longer =
        let k = length m2 - length m1 - 1 in
        let pre = front ++ (b':' ∷ y ∷ []) in
        ap message up_to_colon
        ∙ ap (λ t. message (write_at (7 + length m1) m2 t))
            (ap (write_at (6 + length m2) (b' ' ∷ [])) (sym (append_assoc front (b':' ∷ y ∷ []) f2))
              ∙ ap (λ n. write_at n (b' ' ∷ []) (pre ++ f2)) place
              ∙ write_at_shift pre f2 (b' ' ∷ []) k
              ∙ append_assoc front (b':' ∷ y ∷ []) (write_at k (b' ' ∷ []) f2))
        ∙ last_copy y (write_at k (b' ' ∷ []) f2)
            (length-write_at k (b' ' ∷ []) f2 (omega arith) ∙ e2)
      where
        place : 6 + length m2 ≡ length (front ++ (b':' ∷ y ∷ [])) + (length m2 - length m1 - 1)
        place = omega (arith, length-append front (b':' ∷ y ∷ []), length-front)

    -- Where the messages have the same length, the text is the two with a colon and a blank between.
    pub message-two :
        length m1 ≡ length m2
        → message (make_state (h4 ++ (h1 ++ (f1 ++ (x ∷ y ∷ f2)))) c m1 m2)
          ≡ m1 ++ (b':' ∷ b' ' ∷ m2)
    unfolding fresh
    message-two same =
        ap message up_to_colon
        ∙ ap (λ t. message (write_at (7 + length m1) m2 t))
            (ap (write_at (6 + length m2) (b' ' ∷ []))
                (sym (append_assoc front (b':' ∷ []) (y ∷ f2)))
              ∙ write_behind (6 + length m2) (front ++ (b':' ∷ [])) (y ∷ []) f2 (b' ' ∷ [])
                  (omega (arith, length-append front (b':' ∷ []), length-front)) refl
              ∙ append_assoc front (b':' ∷ []) (b' ' ∷ f2))
        ∙ last_copy b' ' f2 e2
