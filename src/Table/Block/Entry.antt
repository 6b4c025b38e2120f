-- ===== src/Table/Block/Entry.antt =====
-- The lengths in front of an entry are read back, in their short form too.
use quas_db.Base.{
  ℕ, suc, ◌+◌, ◌-◌, ◌%◌, ◌^◌, ◌<◌, ◌≤◌, bit_or, ◌≡◌, refl, sym, ap, ◌∙◌, false, ltb, Bool-cases,
  inl, inr, if◌then◌else◌, Option, none, some, ◌>>=◌, List, [], ◌∷◌, ◌++◌, length, length-append,
  length-drop, append_assoc, drop, arith,
}
use quas_db.Base.Bits.{bit_or_above, bit_and_128}
use quas_db.Util.Coding.{encode_varint32, get_varint32, get_varint32_ptr, put_varint32}
use quas_db.Util.Coding.RoundTrip.{get_varint32-encode_varint32}
use quas_db.Util.Coding.Groups.{length-groups}
use quas_db.Util.Coding.Encode.{encode_varint32-groups}
use quas_db.Table.BlockBuilder.{put_entry}
use quas_db.Table.Block.{Lengths, decode_lengths, decode_entry}

-- The check of the lengths against the bytes that are left.
unfoldable pub within : Lengths → Option Lengths
within e = if ltb (length e.rest) ((e.non_shared + e.value_length) % 2 ^ 32) then none else some e

short_ptr : (b : ℕ) (p : List ℕ) → b < 128 → get_varint32_ptr (b ∷ p) ≡ some (b, p)
unfolding get_varint32_ptr
short_ptr b p h = ground (arith, bit_and_128 b)

decode_lengths-short :
    (a b c : ℕ) (p : List ℕ)
    → a < 128
    → b < 128
    → c < 128
    → decode_lengths (a ∷ b ∷ c ∷ p)
      ≡ some (record { shared = a; non_shared = b; value_length = c; rest = p })
unfolding decode_lengths
decode_lengths-short a b c p ha hb hc =
    rw (short_ptr a (b ∷ c ∷ p) ha, short_ptr b (c ∷ p) hb, short_ptr c p hc) refl

-- Where three bytes are there, the fast path gives what the decoders give.
decode_entry-decode_lengths :
    (a b c : ℕ) (p : List ℕ)
    → decode_entry (a ∷ b ∷ c ∷ p) ≡ (decode_lengths (a ∷ b ∷ c ∷ p) >>= within)
unfolding decode_entry within
decode_entry-decode_lengths a b c p = elim (Bool-cases (ltb (bit_or (bit_or a b) c) 128)) [
  | inl small ↦
      let all : bit_or (bit_or a b) c < 128 = ground arith in
      rw
        (
          long,
          small,
          decode_lengths-short a b c p
              (omega (arith, bit_or_above a b, bit_or_above (bit_or a b) c))
              (omega (arith, bit_or_above a b, bit_or_above (bit_or a b) c))
              (omega (arith, bit_or_above (bit_or a b) c)),
        )
        refl
  | inr large ↦ rw (long, large) refl
]
  where
    long : ltb (suc (suc (suc (length p)))) 3 ≡ false
    long = ground arith

-- The bytes of an entry.
unfoldable pub entry_code : ℕ → List ℕ → List ℕ → List ℕ
entry_code shared key value =
    encode_varint32 shared
    ++ (encode_varint32 (length key - shared)
        ++ (encode_varint32 (length value) ++ (drop shared key ++ value)))

pub put_entry-entry_code :
    (buffer : List ℕ) (shared : ℕ) (key value : List ℕ)
    → shared < 2 ^ 32
    → length key < 2 ^ 32
    → length value < 2 ^ 32
    → put_entry buffer shared key value ≡ buffer ++ entry_code shared key value
unfolding put_entry entry_code put_varint32
put_entry-entry_code buffer shared key value hs hk hv =
    let small_s : shared % 2 ^ 32 ≡ shared = omega arith in
    let small_k : (length key - shared) % 2 ^ 32 ≡ length key - shared = omega arith in
    let small_v : length value % 2 ^ 32 ≡ length value = omega arith in
    rw (small_s, small_k, small_v, append_assoc, append_assoc, append_assoc) refl

ptr_read :
    (v : ℕ) (more : List ℕ)
    → v < 2 ^ 32
    → get_varint32_ptr (encode_varint32 v ++ more) ≡ some (v, more)
unfolding get_varint32
ptr_read v more h = get_varint32-encode_varint32 v more h

decode_lengths-code :
    (shared : ℕ) (key value rest : List ℕ)
    → shared < 2 ^ 32
    → length key < 2 ^ 32
    → length value < 2 ^ 32
    → decode_lengths (entry_code shared key value ++ rest)
      ≡ some (record {
        shared = shared;
        non_shared = length key - shared;
        value_length = length value;
        rest = drop shared key ++ (value ++ rest);
      })
unfolding decode_lengths entry_code
decode_lengths-code shared key value rest hs hk hv =
    let body = drop shared key ++ value in
    rw
      (
        append_assoc (encode_varint32 shared)
            (encode_varint32 (length key - shared) ++ (encode_varint32 (length value) ++ body))
            rest,
        append_assoc (encode_varint32 (length key - shared))
            (encode_varint32 (length value) ++ body) rest,
        append_assoc (encode_varint32 (length value)) body rest,
        append_assoc (drop shared key) value rest,
        ptr_read shared
            (encode_varint32 (length key - shared)
              ++ (encode_varint32 (length value) ++ (drop shared key ++ (value ++ rest))))
            hs,
        ptr_read (length key - shared)
            (encode_varint32 (length value) ++ (drop shared key ++ (value ++ rest))) (omega arith),
        ptr_read (length value) (drop shared key ++ (value ++ rest)) hv,
      )
      refl

pub length-varint32 : (v : ℕ) → v < 2 ^ 32 → 1 ≤ length (encode_varint32 v)
length-varint32 v h = rw (encode_varint32-groups v h) (length-groups 4 v).0

pub length-entry_code :
    (shared : ℕ) (key value : List ℕ)
    → shared < 2 ^ 32
    → length key < 2 ^ 32
    → length value < 2 ^ 32
    → 3 ≤ length (entry_code shared key value)
unfolding entry_code
length-entry_code shared key value hs hk hv =
    let body = drop shared key ++ value in
    omega (
      arith,
      length-varint32 shared hs,
      length-varint32 (length key - shared) (omega arith),
      length-varint32 (length value) hv,
      length-append (encode_varint32 shared)
          (encode_varint32 (length key - shared) ++ (encode_varint32 (length value) ++ body)),
      length-append (encode_varint32 (length key - shared))
          (encode_varint32 (length value) ++ body),
      length-append (encode_varint32 (length value)) body,
    )

-- The body of an entry stands at its end.
pub entry_code-body :
    (shared : ℕ) (key value : List ℕ)
    → length (drop shared key) + length value ≤ length (entry_code shared key value)
unfolding entry_code
entry_code-body shared key value =
    let body = drop shared key ++ value in
    omega (
      arith,
      length-append (drop shared key) value,
      length-append (encode_varint32 shared)
          (encode_varint32 (length key - shared) ++ (encode_varint32 (length value) ++ body)),
      length-append (encode_varint32 (length key - shared))
          (encode_varint32 (length value) ++ body),
      length-append (encode_varint32 (length value)) body,
    )

three_first :
    (p : List ℕ) → 3 ≤ length p → (a : ℕ) × (b : ℕ) × (c : ℕ) × (q : List ℕ) × (p ≡ a ∷ b ∷ c ∷ q)
three_first [] h = absurd (omega arith)
three_first (a ∷ []) h = absurd (omega arith)
three_first (a ∷ b ∷ []) h = absurd (omega arith)
three_first (a ∷ b ∷ c ∷ q) h = (a, b, c, q, refl)

-- DecodeEntry reads back the lengths that Add wrote, where the key and the value together have fewer
-- than 2^32 bytes.
pub decode_entry-entry_code :
    (shared : ℕ) (key value rest : List ℕ)
    → shared ≤ length key
    → length key + length value < 2 ^ 32
    → decode_entry (entry_code shared key value ++ rest)
      ≡ some (record {
        shared = shared;
        non_shared = length key - shared;
        value_length = length value;
        rest = drop shared key ++ (value ++ rest);
      })
unfolding within
decode_entry-entry_code shared key value rest hs h =
    let code = entry_code shared key value in
    let (a, b, c, q, e) = three_first (code ++ rest) (
      omega (
        arith,
        length-append code rest,
        length-entry_code shared key value (omega arith) (omega arith) (omega arith),
      )) in
    rw e (decode_entry-decode_lengths a b c q)
    ∙ ap (λ (p : List ℕ). decode_lengths p >>= within) (sym e)
    ∙ rw
        (
          decode_lengths-code shared key value rest (omega arith) (omega arith) (omega arith),
          enough,
        )
        refl
  where
    enough :
        ltb
          (length (drop shared key ++ (value ++ rest)))
          ((length key - shared + length value) % 2 ^ 32)
        ≡ false
    enough = ground (
      arith,
      length-append (drop shared key) (value ++ rest),
      length-append value rest,
      length-drop shared key,
    )
