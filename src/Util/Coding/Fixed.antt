-- ===== src/Util/Coding/Fixed.antt =====
-- EncodeFixed32/64 and DecodeFixed32/64 undo one another, and the bytes are the number's digits.
use quas_db.Base.{
  ℕ, ◌+◌, ◌*◌, ◌/◌, ◌%◌, ◌^◌, ◌<◌, ◌≡◌, refl, List, [], ◌∷◌, ◌++◌, All, length, arith,
}
use quas_db.Base.Bits.{bit_or_shifted}
use quas_db.Util.Coding.{IsByte, encode_fixed32, encode_fixed64, decode_fixed32, decode_fixed64}

-- Four bytes in little-endian order.
pub decode_fixed32_sum :
    (a b c d : ℕ) (rest : List ℕ)
    → IsByte a
    → IsByte b
    → IsByte c
    → IsByte d
    → decode_fixed32 (a ∷ b ∷ c ∷ d ∷ rest) ≡ a + b * 2 ^ 8 + c * 2 ^ 16 + d * 2 ^ 24
unfolding decode_fixed32
decode_fixed32_sum a b c d rest ha hb hc hd = ground (
  arith,
  bit_or_shifted 8 a b,
  bit_or_shifted 16 (a + b * 2 ^ 8) c,
  bit_or_shifted 24 (a + b * 2 ^ 8 + c * 2 ^ 16) d,
)

pub decode_fixed64_sum :
    (a b c d e f g h : ℕ) (rest : List ℕ)
    → All IsByte (a ∷ b ∷ c ∷ d ∷ e ∷ f ∷ g ∷ h ∷ [])
    → decode_fixed64 (a ∷ b ∷ c ∷ d ∷ e ∷ f ∷ g ∷ h ∷ rest)
      ≡ a + b * 2 ^ 8 + c * 2 ^ 16 + d * 2 ^ 24 + e * 2 ^ 32 + f * 2 ^ 40 + g * 2 ^ 48 + h * 2 ^ 56
unfolding decode_fixed64
decode_fixed64_sum a b c d e f g h rest hs = ground (
  arith,
  bit_or_shifted 8 a b,
  bit_or_shifted 16 (a + b * 2 ^ 8) c,
  bit_or_shifted 24 (a + b * 2 ^ 8 + c * 2 ^ 16) d,
  bit_or_shifted 32 (a + b * 2 ^ 8 + c * 2 ^ 16 + d * 2 ^ 24) e,
  bit_or_shifted 40 (a + b * 2 ^ 8 + c * 2 ^ 16 + d * 2 ^ 24 + e * 2 ^ 32) f,
  bit_or_shifted 48 (a + b * 2 ^ 8 + c * 2 ^ 16 + d * 2 ^ 24 + e * 2 ^ 32 + f * 2 ^ 40) g,
  bit_or_shifted 56 (a + b * 2 ^ 8 + c * 2 ^ 16 + d * 2 ^ 24 + e * 2 ^ 32 + f * 2 ^ 40 + g * 2 ^ 48)
      h,
)

-- Decoding what EncodeFixed32 wrote gives the uint32 back, whatever bytes follow.
pub decode_fixed32-encode_fixed32 :
    (value : ℕ) (rest : List ℕ)
    → value < 2 ^ 32
    → decode_fixed32 (encode_fixed32 value ++ rest) ≡ value
unfolding encode_fixed32
decode_fixed32-encode_fixed32 value rest h = omega (
  arith,
  decode_fixed32_sum (value % 256) (value / 2 ^ 8 % 256) (value / 2 ^ 16 % 256)
      (value / 2 ^ 24 % 256) rest (omega arith) (omega arith) (omega arith) (omega arith),
)

-- Decoding what EncodeFixed64 wrote gives the uint64 back, whatever bytes follow.
pub decode_fixed64-encode_fixed64 :
    (value : ℕ) (rest : List ℕ)
    → value < 2 ^ 64
    → decode_fixed64 (encode_fixed64 value ++ rest) ≡ value
unfolding encode_fixed64
decode_fixed64-encode_fixed64 value rest h = omega (
  arith,
  decode_fixed64_sum (value % 256) (value / 2 ^ 8 % 256) (value / 2 ^ 16 % 256)
      (value / 2 ^ 24 % 256) (value / 2 ^ 32 % 256) (value / 2 ^ 40 % 256) (value / 2 ^ 48 % 256)
      (value / 2 ^ 56 % 256) rest (omega arith),
)

pub length-encode_fixed32 : (value : ℕ) → length (encode_fixed32 value) ≡ 4
unfolding encode_fixed32
length-encode_fixed32 value = refl

pub length-encode_fixed64 : (value : ℕ) → length (encode_fixed64 value) ≡ 8
unfolding encode_fixed64
length-encode_fixed64 value = refl

pub encode_fixed32-bytes : (value : ℕ) → All IsByte (encode_fixed32 value)
unfolding encode_fixed32
encode_fixed32-bytes value = omega arith

pub encode_fixed64-bytes : (value : ℕ) → All IsByte (encode_fixed64 value)
unfolding encode_fixed64
encode_fixed64-bytes value = omega arith
