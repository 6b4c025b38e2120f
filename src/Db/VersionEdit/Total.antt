-- ===== src/Db/VersionEdit/Total.antt =====
-- DecodeFrom ends on every string: each round of its loop takes a byte at least.
use quas_db.Base.{
  ℕ, zero, suc, ◌≤◌, ◌<◌, ◌≡◌, ◌≢◌, refl, Option, none, some, ◌>>=◌, List, length, Bool-cases, ◌⊎◌,
  ap, [], Option-cases, inl, inr, ◌==◌, arith,
}
use quas_db.Util.Coding.{get_varint32, get_varint64, get_length_prefixed_slice}
use quas_db.Util.Coding.Decode.{
  get_varint32_ptr_shrinks, get_varint64_ptr_takes, get_length_prefixed_slice_takes,
}
use Prim.Native.String.{String}
use quas_db.Db.VersionEdit.{
  FileMetaData, VersionEdit, get_internal_key, get_level, get_pointer, get_deleted, get_new_file,
  Field, parsed, bad, or_bad, decode_field, decode_loop, decode_from, clear,
}

-- One reader after another.
bind_shrinks :
    {A B : Type 0} (o : Option (A × List ℕ)) (f : A × List ℕ → Option (B × List ℕ)) (n : ℕ) (b : B)
    (rest : List ℕ)
    → ((a : A) (r : List ℕ) → o ≡ some (a, r) → length r < n)
    → ((a : A) (r : List ℕ) → f (a, r) ≡ some (b, rest) → length rest ≤ length r)
    → (o >>= f) ≡ some (b, rest)
    → length rest < n
bind_shrinks none f n b rest p q e = cc
bind_shrinks (some (a, r)) f n b rest p q e = omega (arith, p a r refl, q a r e)

bind_keeps :
    {A B : Type 0} (o : Option (A × List ℕ)) (f : A × List ℕ → Option (B × List ℕ)) (n : ℕ) (b : B)
    (rest : List ℕ)
    → ((a : A) (r : List ℕ) → o ≡ some (a, r) → length r < n)
    → ((a : A) (r : List ℕ) → f (a, r) ≡ some (b, rest) → length rest ≤ length r)
    → (o >>= f) ≡ some (b, rest)
    → length rest ≤ n
bind_keeps o f n b rest p q e = omega (arith, bind_shrinks o f n b rest p q e)

varint32_shrinks :
    (input : List ℕ) (v : ℕ) (r : List ℕ)
    → get_varint32 input ≡ some (v, r)
    → length r < length input
unfolding get_varint32
varint32_shrinks = get_varint32_ptr_shrinks

varint64_shrinks :
    (input : List ℕ) (v : ℕ) (r : List ℕ)
    → get_varint64 input ≡ some (v, r)
    → length r < length input
unfolding get_varint64
varint64_shrinks input v r e = (get_varint64_ptr_takes input v r e).1

slice_shrinks :
    (input v r : List ℕ) → get_length_prefixed_slice input ≡ some (v, r) → length r < length input
slice_shrinks input v r e = omega (arith, get_length_prefixed_slice_takes input v r e)

level_shrinks :
    (input : List ℕ) (v : ℕ) (r : List ℕ) → get_level input ≡ some (v, r) → length r < length input
unfolding get_level
level_shrinks input v r e =
    bind_shrinks (get_varint32 input) _ (length input) v r (varint32_shrinks input)
      (λ a q e'. ground arith) e

key_shrinks : (input v r : List ℕ) → get_internal_key input ≡ some (v, r) → length r < length input
unfolding get_internal_key
key_shrinks input v r e =
    bind_shrinks (get_length_prefixed_slice input) _ (length input) v r (slice_shrinks input)
      (λ a q e'. ground arith) e

pointer_shrinks :
    (input : List ℕ) (v : ℕ × List ℕ) (r : List ℕ)
    → get_pointer input ≡ some (v, r)
    → length r < length input
pointer_shrinks input v r e =
    bind_shrinks (get_level input) _ (length input) v r (level_shrinks input)
      (λ l q e'.
        bind_keeps (get_internal_key q) _ (length q) v r (key_shrinks q) (λ k q' e''. ground arith)
          e')
      e

deleted_shrinks :
    (input : List ℕ) (v : ℕ × ℕ) (r : List ℕ)
    → get_deleted input ≡ some (v, r)
    → length r < length input
deleted_shrinks input v r e =
    bind_shrinks (get_level input) _ (length input) v r (level_shrinks input)
      (λ l q e'.
        bind_keeps (get_varint64 q) _ (length q) v r (varint64_shrinks q) (λ k q' e''. ground arith)
          e')
      e

new_file_shrinks :
    (input : List ℕ) (v : ℕ × FileMetaData) (r : List ℕ)
    → get_new_file input ≡ some (v, r)
    → length r < length input
new_file_shrinks input v r e =
    bind_shrinks (get_level input) _ (length input) v r (level_shrinks input)
      (λ l q e1.
        bind_keeps (get_varint64 q) _ (length q) v r (varint64_shrinks q)
          (λ n q2 e2.
            bind_keeps (get_varint64 q2) _ (length q2) v r (varint64_shrinks q2)
              (λ s q3 e3.
                bind_keeps (get_internal_key q3) _ (length q3) v r (key_shrinks q3)
                  (λ a q4 e4.
                    bind_keeps (get_internal_key q4) _ (length q4) v r (key_shrinks q4)
                      (λ b q5 e5. ground arith) e4)
                  e3)
              e2)
          e1)
      e

or_bad_shrinks :
    {A : Type 0} (msg : String) (o : Option (A × List ℕ)) (f : A → VersionEdit) (n : ℕ)
    (e' : VersionEdit) (r : List ℕ)
    → ((a : A) (q : List ℕ) → o ≡ some (a, q) → length q < n)
    → or_bad msg o f ≡ parsed e' r
    → length r < n
or_bad_shrinks msg none f n e' r p e = cc
or_bad_shrinks msg (some (a, q)) f n e' r p e = omega (arith, p a q refl, ap length (rest_of e))
  where
    rest : Field → List ℕ
    rest (parsed x y) = y
    rest (bad m) = []

    rest_of : parsed (f a) q ≡ parsed e' r → q ≡ r
    rest_of h = ap rest h

decode_field_shrinks :
    (tag : ℕ) (input : List ℕ) (e e' : VersionEdit) (r : List ℕ)
    → decode_field tag input e ≡ parsed e' r
    → length r < length input
unfolding decode_field
decode_field_shrinks tag input e e' r h = elim (Bool-cases (tag == 1)) [
  | inl t ↦
      or_bad_shrinks _ (get_length_prefixed_slice input) _ (length input) e' r (slice_shrinks input)
        (rw t at h)
  | inr t1 ↦ elim (Bool-cases (tag == 2)) [
    | inl t ↦
        or_bad_shrinks _ (get_varint64 input) _ (length input) e' r (varint64_shrinks input)
          (rw (t1, t) at h)
    | inr t2 ↦ elim (Bool-cases (tag == 9)) [
      | inl t ↦
          or_bad_shrinks _ (get_varint64 input) _ (length input) e' r (varint64_shrinks input)
            (rw (t1, t2, t) at h)
      | inr t3 ↦ elim (Bool-cases (tag == 3)) [
        | inl t ↦
            or_bad_shrinks _ (get_varint64 input) _ (length input) e' r (varint64_shrinks input)
              (rw (t1, t2, t3, t) at h)
        | inr t4 ↦ elim (Bool-cases (tag == 4)) [
          | inl t ↦
              or_bad_shrinks _ (get_varint64 input) _ (length input) e' r (varint64_shrinks input)
                (rw (t1, t2, t3, t4, t) at h)
          | inr t5 ↦ elim (Bool-cases (tag == 5)) [
            | inl t ↦
                or_bad_shrinks _ (get_pointer input) _ (length input) e' r (pointer_shrinks input)
                  (rw (t1, t2, t3, t4, t5, t) at h)
            | inr t6 ↦ elim (Bool-cases (tag == 6)) [
              | inl t ↦
                  or_bad_shrinks _ (get_deleted input) _ (length input) e' r (deleted_shrinks input)
                    (rw (t1, t2, t3, t4, t5, t6, t) at h)
              | inr t7 ↦ elim (Bool-cases (tag == 7)) [
                | inl t ↦
                    or_bad_shrinks _ (get_new_file input) _ (length input) e' r
                      (new_file_shrinks input) (rw (t1, t2, t3, t4, t5, t6, t7, t) at h)
                | inr t8 ↦ unknown (rw (t1, t2, t3, t4, t5, t6, t7, t8) at h)
              ]
            ]
          ]
        ]
      ]
    ]
  ]
]
  where
    unknown : bad "unknown tag" ≡ parsed e' r → length r < length input
    unknown q = cc

Field-cases :
    (f : Field)
    → ((msg : String) × (f ≡ bad msg)) ⊎ ((e : VersionEdit) × (r : List ℕ) × (f ≡ parsed e r))
Field-cases (parsed e r) = inr (e, r, refl)
Field-cases (bad msg) = inl (msg, refl)

decode_loop-ne-none :
    (fuel : ℕ) (input : List ℕ) (e : VersionEdit)
    → length input ≤ fuel
    → decode_loop fuel input e ≢ none
unfolding decode_loop
decode_loop-ne-none zero input e h = elim (Option-cases (get_varint32 input)) [
  | inl done ↦ rw (done, decode_loop) (λ q. cc)
  | inr ((tag, rest), found) ↦ absurd (omega (arith, varint32_shrinks input tag rest found))
]
decode_loop-ne-none (suc fuel) input e h = elim (Option-cases (get_varint32 input)) [
  | inl done ↦ rw (done, decode_loop) (λ q. cc)
  | inr ((tag, rest), found) ↦
      let less = varint32_shrinks input tag rest found in
      elim (Field-cases (decode_field tag rest e)) [
        | inl (msg, wrong) ↦ rw (found, decode_loop) (rw wrong (λ q. cc))
        | inr (e', r, right) ↦
            let less' = decode_field_shrinks tag rest e e' r right in
            rw (found, decode_loop) (rw right (decode_loop-ne-none fuel r e' (omega arith)))
      ]
]

-- DecodeFrom ends with a status on every string, well formed or not: its loop never runs out of fuel.
pub decode_from-ne-none : (e : VersionEdit) (src : List ℕ) → decode_from e src ≢ none
unfolding decode_from
decode_from-ne-none e src = decode_loop-ne-none (length src) src (clear e) (omega arith)
