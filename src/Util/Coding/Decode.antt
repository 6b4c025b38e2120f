-- ===== src/Util/Coding/Decode.antt =====
-- The varint decoders on any input, well formed or not.
use quas_db.Base.{
  ℕ, ◌+◌, ◌*◌, ◌%◌, ◌^◌, ◌≤◌, ◌<◌, ◌≡◌, refl, bit_or, bit_and, some, List, [], ◌∷◌, ◌++◌, All,
  length, length-take, length-drop, Option-cases, inl, inr, arith,
}
use quas_db.Base.Bits.{bit_and_128, bit_or_fits, bit_or_shifted}
use quas_db.Util.Coding.{
  get_length_prefixed_slice_ptr, get_length_prefixed_slice, get_varint32, IsByte,
  get_length_prefixed_slice, get_varint32, get_varint_loop, get_varint32_ptr,
  get_varint32_ptr_fallback, get_varint64_ptr,
}

-- After `j` bytes the shift is 7 * j.
loop_takes :
    (w last : ℕ) (p : List ℕ) (shift result j v : ℕ) (rest : List ℕ)
    → shift ≡ 7 * j
    → result < 2 ^ w
    → get_varint_loop (2 ^ w) last p shift result ≡ some (v, rest)
    → (v < 2 ^ w) × (length rest < length p) × (7 * (length p + j) ≤ 7 * length rest + last + 7)
unfolding get_varint_loop
loop_takes w last [] shift result j v rest hs hr e = cc
loop_takes w last (b ∷ p) shift result j v rest hs hr e = ground (
  arith,
  bit_or_fits w result (bit_and b 127 * 2 ^ shift % 2 ^ w),
  bit_or_fits w result (b * 2 ^ shift % 2 ^ w),
  loop_takes w last p (shift + 7) (bit_or result (bit_and b 127 * 2 ^ shift % 2 ^ w)) (j + 1) v
      rest,
)

-- A uint32 that GetVarint32Ptr reads is below 2^32, and it takes 1 to 5 bytes.
pub get_varint32_ptr_fallback_takes :
    (p : List ℕ) (v : ℕ) (rest : List ℕ)
    → get_varint32_ptr_fallback p ≡ some (v, rest)
    → (v < 2 ^ 32) × (length rest < length p) × (length p ≤ length rest + 5)
unfolding get_varint32_ptr_fallback
get_varint32_ptr_fallback_takes p v rest e =
    let (a, b, c) = loop_takes 32 28 p 0 0 0 v rest (omega arith) (omega arith) e in
    (a, b, omega arith)

-- A varint64 that is read is a uint64, and takes 1 to 10 bytes.
pub get_varint64_ptr_takes :
    (p : List ℕ) (v : ℕ) (rest : List ℕ)
    → get_varint64_ptr p ≡ some (v, rest)
    → (v < 2 ^ 64) × (length rest < length p) × (length p ≤ length rest + 10)
unfolding get_varint64_ptr
get_varint64_ptr_takes p v rest e =
    let (a, b, c) = loop_takes 64 63 p 0 0 0 v rest (omega arith) (omega arith) e in
    (a, b, omega arith)

pub fast_path :
    (b : ℕ) (p : List ℕ) → IsByte b → get_varint32_ptr (b ∷ p) ≡ get_varint32_ptr_fallback (b ∷ p)
unfolding get_varint32_ptr get_varint32_ptr_fallback get_varint_loop
fast_path b p h = ground (arith, bit_and_128 b, bit_or_shifted 0 0 b)

-- The inline fast path of GetVarint32Ptr gives what the loop gives, on every string of bytes.
pub get_varint32_ptr-fallback :
    (p : List ℕ) → All IsByte p → get_varint32_ptr p ≡ get_varint32_ptr_fallback p
get_varint32_ptr-fallback [] h = unfold get_varint32_ptr in refl
get_varint32_ptr-fallback (b ∷ p) (hb, h) = fast_path b p hb

-- More input does not change what was read.
pub loop-append :
    (word last : ℕ) (p more : List ℕ) (shift result v : ℕ) (rest : List ℕ)
    → get_varint_loop word last p shift result ≡ some (v, rest)
    → get_varint_loop word last (p ++ more) shift result ≡ some (v, rest ++ more)
unfolding get_varint_loop
loop-append word last [] more shift result v rest e = cc
loop-append word last (b ∷ p) more shift result v rest e = ground (
  arith,
  loop-append word last p more (shift + 7) (bit_or result (bit_and b 127 * 2 ^ shift % word)) v
      rest,
)

pub get_varint32_ptr_shrinks :
    (p : List ℕ) (v : ℕ) (rest : List ℕ)
    → get_varint32_ptr p ≡ some (v, rest)
    → length rest < length p
unfolding get_varint32_ptr
get_varint32_ptr_shrinks [] v rest e = (get_varint32_ptr_fallback_takes [] v rest e).1
get_varint32_ptr_shrinks (b ∷ p) v rest e =
    ground (arith, get_varint32_ptr_fallback_takes (b ∷ p) v rest)

-- A slice that is read has its bytes in the input: the input is longer than it and what is left.
pub get_length_prefixed_slice_takes :
    (p value rest : List ℕ)
    → get_length_prefixed_slice p ≡ some (value, rest)
    → length value + length rest < length p
unfolding get_length_prefixed_slice get_varint32
get_length_prefixed_slice_takes p value rest e = elim (Option-cases (get_varint32_ptr p)) [
  | inl missing ↦ cc (missing)
  | inr ((len, r), found) ↦
      ground (arith, length-take len r, length-drop len r, get_varint32_ptr_shrinks p len r)
]

-- The form of GetLengthPrefixedSlice on pointers gives what the form on slices gives, on every input.
pub get_length_prefixed_slice_ptr-slice :
    (p : List ℕ) → get_length_prefixed_slice_ptr p ≡ get_length_prefixed_slice p
unfolding get_length_prefixed_slice_ptr get_length_prefixed_slice get_varint32
get_length_prefixed_slice_ptr-slice p = ground arith
