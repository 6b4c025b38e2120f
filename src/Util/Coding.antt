-- ===== src/Util/Coding.antt =====
-- kv/util/coding.h and kv/util/coding.cpp: fixed-width and variable-length integers, and slices
-- behind their length. A `char` is a number below 256, a string or slice the list of its bytes. A
-- pair of pointers `p`, `limit` is the list of the bytes between them; a `Put` routine appends to
-- its first argument; a `Get` routine returns the value with the bytes behind it, and `none` for a
-- null pointer or `false`.
pub mod Groups
pub mod Fixed
pub mod Encode
pub mod Decode
pub mod RoundTrip
use quas_db.Base.{
  ℕ, zero, suc, ◌+◌, ◌*◌, ◌/◌, ◌%◌, ◌^◌, ◌≤◌, ◌<◌, bit_and, bit_or, ◌==◌, ltb, leb, if◌then◌else◌,
  Option, none, some, ◌>>=◌, List, [], ◌∷◌, ◌++◌, length, take, drop, get_or, arith,
}
use quas_db.Base.Order.{lt_wf}
use mathlib.Core.Logic.{dite}
use mathlib.Core.WellFounded.{Acc}
use native.Mathlib.Decide.{dec_le}

abbrev pub IsByte : ℕ → Type 0
IsByte b = b < 256

unfoldable pub encode_fixed32 : ℕ → List ℕ
encode_fixed32 value =
    value % 256 ∷ value / 2 ^ 8 % 256 ∷ value / 2 ^ 16 % 256 ∷ value / 2 ^ 24 % 256 ∷ []

unfoldable pub encode_fixed64 : ℕ → List ℕ
encode_fixed64 value =
    value % 256
    ∷ value / 2 ^ 8 % 256
    ∷ value / 2 ^ 16 % 256
    ∷ value / 2 ^ 24 % 256
    ∷ value / 2 ^ 32 % 256
    ∷ value / 2 ^ 40 % 256
    ∷ value / 2 ^ 48 % 256
    ∷ value / 2 ^ 56 % 256
    ∷ []

unfoldable pub put_fixed32 : List ℕ → ℕ → List ℕ
put_fixed32 dst value = dst ++ encode_fixed32 value

unfoldable pub put_fixed64 : List ℕ → ℕ → List ℕ
put_fixed64 dst value = dst ++ encode_fixed64 value

-- The decoders check no bound. Their callers give them enough bytes; a byte that is not there
-- counts as 0.
unfoldable pub decode_fixed32 : List ℕ → ℕ
decode_fixed32 p =
    bit_or (bit_or (bit_or (get_or p 0 0) (get_or p 1 0 * 2 ^ 8)) (get_or p 2 0 * 2 ^ 16))
      (get_or p 3 0 * 2 ^ 24)

unfoldable pub decode_fixed64 : List ℕ → ℕ
decode_fixed64 p =
    bit_or
      (bit_or
        (bit_or
          (bit_or
            (bit_or (bit_or (bit_or (get_or p 0 0) (get_or p 1 0 * 2 ^ 8)) (get_or p 2 0 * 2 ^ 16))
              (get_or p 3 0 * 2 ^ 24))
            (get_or p 4 0 * 2 ^ 32))
          (get_or p 5 0 * 2 ^ 40))
        (get_or p 6 0 * 2 ^ 48))
      (get_or p 7 0 * 2 ^ 56)

-- The bytes that `EncodeVarint32` writes. A store into a `uint8_t` keeps the low eight bits.
unfoldable pub encode_varint32 : ℕ → List ℕ
encode_varint32 v =
    if ltb v (2 ^ 7)
    then v % 256 ∷ []
    else if ltb v (2 ^ 14)
    then bit_or v 128 % 256 ∷ v / 2 ^ 7 % 256 ∷ []
    else if ltb v (2 ^ 21)
    then bit_or v 128 % 256 ∷ bit_or (v / 2 ^ 7) 128 % 256 ∷ v / 2 ^ 14 % 256 ∷ []
    else if ltb v (2 ^ 28)
    then bit_or v 128 % 256
      ∷ bit_or (v / 2 ^ 7) 128 % 256
      ∷ bit_or (v / 2 ^ 14) 128 % 256
      ∷ v / 2 ^ 21 % 256
      ∷ []
    else bit_or v 128 % 256
      ∷ bit_or (v / 2 ^ 7) 128 % 256
      ∷ bit_or (v / 2 ^ 14) 128 % 256
      ∷ bit_or (v / 2 ^ 21) 128 % 256
      ∷ v / 2 ^ 28 % 256
      ∷ []

unfoldable pub put_varint32 : List ℕ → ℕ → List ℕ
put_varint32 dst v = dst ++ encode_varint32 v

pub seventh_part_smaller : (v : ℕ) → 128 ≤ v → v / 2 ^ 7 < v
seventh_part_smaller v h = omega arith

-- `while (v >= B)`: the recursion is on the fall of `v`.
unfoldable pub encode_varint64_loop : (v : ℕ) → Acc ◌<◌ v → List ℕ
unfolding dec_le
encode_varint64_loop v (Acc.intro _ smaller) =
    dite (dec_le 128 v)
      (λ h.
        bit_or v 128 % 256
        ∷ encode_varint64_loop (v / 2 ^ 7) (smaller _ (seventh_part_smaller v h)))
      (λ _. v % 256 ∷ [])

unfoldable pub encode_varint64 : ℕ → List ℕ
unfolding encode_varint64_loop lt_wf
encode_varint64 v = encode_varint64_loop v (lt_wf.apply v)

unfoldable pub put_varint64 : List ℕ → ℕ → List ℕ
put_varint64 dst v = dst ++ encode_varint64 v

unfoldable pub put_length_prefixed_slice : List ℕ → List ℕ → List ℕ
put_length_prefixed_slice dst value = put_varint32 dst (length value % 2 ^ 32) ++ value

unfoldable pub varint_length_loop : (v : ℕ) → Acc ◌<◌ v → ℕ → ℕ
unfolding dec_le
varint_length_loop v (Acc.intro _ smaller) len =
    dite (dec_le 128 v)
      (λ h. varint_length_loop (v / 2 ^ 7) (smaller _ (seventh_part_smaller v h)) (len + 1))
      (λ _. len)

unfoldable pub varint_length : ℕ → ℕ
unfolding varint_length_loop lt_wf
varint_length v = varint_length_loop v (lt_wf.apply v) 1

-- The loop that both decoders have, for words below `word` and shifts up to `last`.
unfoldable pub get_varint_loop : (word last : ℕ) → List ℕ → ℕ → ℕ → Option (ℕ × List ℕ)
get_varint_loop word last [] shift result = none
get_varint_loop word last (byte ∷ p) shift result =
    let more =
      get_varint_loop word last p (shift + 7)
        (bit_or result (bit_and byte 127 * 2 ^ shift % word)) in
    if leb shift last
    then if bit_and byte 128 == 0 then some (bit_or result (byte * 2 ^ shift % word), p) else more
    else none

unfoldable pub get_varint32_ptr_fallback : List ℕ → Option (ℕ × List ℕ)
get_varint32_ptr_fallback p = get_varint_loop (2 ^ 32) 28 p 0 0

unfoldable pub get_varint32_ptr : List ℕ → Option (ℕ × List ℕ)
get_varint32_ptr [] = get_varint32_ptr_fallback []
get_varint32_ptr (byte ∷ p) =
    if bit_and byte 128 == 0 then some (byte, p) else get_varint32_ptr_fallback (byte ∷ p)

unfoldable pub get_varint64_ptr : List ℕ → Option (ℕ × List ℕ)
get_varint64_ptr p = get_varint_loop (2 ^ 64) 63 p 0 0

unfoldable pub get_varint32 : List ℕ → Option (ℕ × List ℕ)
get_varint32 input = get_varint32_ptr input

unfoldable pub get_varint64 : List ℕ → Option (ℕ × List ℕ)
get_varint64 input = get_varint64_ptr input

-- On failure the source may have advanced its input; every caller then gives the input up.
unfoldable pub get_length_prefixed_slice : List ℕ → Option (List ℕ × List ℕ)
get_length_prefixed_slice input = do
  (len, rest) ← get_varint32 input
  if leb len (length rest) then some (take len rest, drop len rest) else none

-- The form on pointers: it checks that the slice ends before the limit.
unfoldable pub get_length_prefixed_slice_ptr : List ℕ → Option (List ℕ × List ℕ)
get_length_prefixed_slice_ptr p = elim (get_varint32_ptr p) [
  | none ↦ none
  | some (len, rest) ↦ if ltb (length rest) len then none else some (take len rest, drop len rest)
]
