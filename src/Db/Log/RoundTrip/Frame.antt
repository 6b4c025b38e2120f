-- ===== src/Db/Log/RoundTrip/Frame.antt =====
-- A physical record at the start of the reader's buffer.
use quas_db.Base.{
  ℕ, ◌+◌, ◌*◌, ◌/◌, ◌%◌, ◌^◌, ◌<◌, ◌≡◌, refl, ap, ◌∙◌, bit_or, Bool, true, false, ◌&&◌, ltb, ◌==◌,
  List, [], ◌∷◌, ◌++◌, length, take, drop, take_front, drop_front, length-append, arith,
}
use quas_db.Base.Bits.{bit_and_255, bit_or_shifted}
use quas_db.Util.Coding.{encode_fixed32, decode_fixed32}
use quas_db.Util.Coding.Fixed.{decode_fixed32-encode_fixed32}
use quas_db.Util.Status.{Status}
use quas_db.Util.Crc32c.{Crc32c, crc_value, mask, unmask}
use quas_db.Util.Crc32c.Mask.{unmask-mask, mask-fits}
use quas_db.Util.Env.{SequentialFile}
use quas_db.Db.Log.{
  RecordType, zero_type, full_type, first_type, middle_type, last_type, record_code, header_size,
}
use quas_db.Db.Log.Writer.{physical_header}
use quas_db.Db.Log.Reader.{Reader, header_length, header_type, parse_physical}

code_small : (t : RecordType) → ltb (record_code t) 128 ≡ true
code_small zero_type = refl
code_small full_type = refl
code_small first_type = refl
code_small middle_type = refl
code_small last_type = refl

module _ (crc : Crc32c) (t : RecordType) (payload tail : List ℕ) where
  abbrev pub framed : List ℕ
  framed = physical_header crc t payload ++ (payload ++ tail)

  header_length-framed : length payload < 2 ^ 16 → header_length framed ≡ length payload
  unfolding physical_header encode_fixed32
  header_length-framed h =
      ap (λ (n : ℕ). bit_or (n % 256) (length payload / 2 ^ 8 % 256 % 256 * 2 ^ 8))
        (bit_and_255 (length payload))
      ∙ bit_or_shifted 8 (length payload % 256 % 256) (length payload / 2 ^ 8 % 256 % 256)
          (omega arith)
      ∙ omega arith

  header_type-framed : header_type framed ≡ record_code t
  unfolding physical_header encode_fixed32
  header_type-framed = rw (code_small t)

  pub length-framed : length framed ≡ header_size + length payload + length tail
  unfolding physical_header encode_fixed32
  length-framed = omega (arith, length-append payload tail)

  pub length-physical_header : length (physical_header crc t payload) ≡ header_size
  unfolding physical_header encode_fixed32
  length-physical_header = refl

  payload-framed : take (length payload) (drop header_size framed) ≡ payload
  unfolding physical_header encode_fixed32
  payload-framed = take_front _ payload tail refl

  tail-framed : drop (header_size + length payload) framed ≡ tail
  unfolding physical_header encode_fixed32
  tail-framed = drop_front _ (physical_header crc t payload ++ payload) tail (omega arith)

  checked-framed : take (1 + length payload) (drop 6 framed) ≡ record_code t ∷ payload
  unfolding physical_header encode_fixed32
  checked-framed = take_front _ (record_code t ∷ payload) tail (omega arith)

  stored-framed : unmask (decode_fixed32 framed) ≡ crc_value crc (record_code t ∷ payload)
  unfolding physical_header encode_fixed32
  stored-framed =
      ap unmask (decode_fixed32-encode_fixed32 (mask sum) _ (mask-fits sum))
      ∙ unmask-mask sum (crc.extend_fits _ payload)
      ∙ crc.extend_append 0 (record_code t ∷ []) payload
    where
      sum : ℕ
      sum = crc.extend (crc_value crc (record_code t ∷ [])) payload

eq_self : (n : ℕ) → (n == n) ≡ true
eq_self n = ground arith

and_false : (b : Bool) → (b && false) ≡ false
and_false true = refl
and_false false = refl

pub not_below_zero : (n : ℕ) → ltb n 0 ≡ false
not_below_zero n = ground arith

module _ {F R : Type 0} (crc : Crc32c) (source : SequentialFile F) (corrupt : R → ℕ → Status → R)
    (checksum : Bool) (unknown_type : ℕ → List ℕ) where
  -- Parsing takes the physical record off the buffer and gives its type and payload.
  pub parse_physical-framed :
      (r : Reader F R) (t : RecordType) (payload tail : List ℕ)
      → length payload < 2 ^ 16
      → (record_code t == 0) ≡ false
      → r.buffer ≡ framed crc t payload tail
      → parse_physical crc source corrupt checksum 0 unknown_type r
        ≡ (record r { buffer = tail }, record_code t, payload)
  unfolding parse_physical
  parse_physical-framed r t payload tail h nonzero e =
      rw
        (
          e,
          header_length-framed crc t payload tail h,
          header_type-framed crc t payload tail,
          payload-framed crc t payload tail,
          tail-framed crc t payload tail,
          checked-framed crc t payload tail,
          stored-framed crc t payload tail,
          long_enough,
          nonzero,
          eq_self (crc_value crc (record_code t ∷ payload)),
          and_false checksum,
          not_below_zero,
        )
        refl
    where
      long_enough : ltb (length (framed crc t payload tail)) (header_size + length payload) ≡ false
      long_enough = rw (length-framed crc t payload tail) (ground arith)
