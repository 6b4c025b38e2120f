-- ===== src/Util/Coding/RoundTrip.antt =====
-- Reading back what the varint and length-prefix writers wrote.
use quas_db.Base.{
  ℕ, zero, suc, ◌+◌, ◌*◌, ◌/◌, ◌%◌, ◌^◌, ◌≤◌, ◌<◌, ◌≡◌, ap, ◌∙◌, le→leb, leb, true, some, List, [],
  ◌∷◌, ◌++◌, length, take-append, drop-append, length-append, append_assoc, arith,
}
use quas_db.Base.Bits.{bit_and_127, bit_and_128, bit_or_shifted, pow_seven_more}
use quas_db.Util.Coding.{
  get_varint_loop, get_varint32_ptr_fallback, get_varint64_ptr, get_varint32, get_varint64,
  encode_varint32, encode_varint64, get_length_prefixed_slice, put_length_prefixed_slice,
  put_varint32,
}
use quas_db.Util.Coding.Groups.{groups, groups-cons}
use quas_db.Util.Coding.Decode.{fast_path}
use native.Mathlib.Nat.{div-add-mod}
use quas_db.Util.Coding.Encode.{encode_varint32-groups, encode_varint64-groups}

-- A last group, and a group with its top bit set.
last_group :
    (word last w shift acc : ℕ) (rest : List ℕ)
    → w < 128
    → shift ≤ last
    → acc < 2 ^ shift
    → acc + w * 2 ^ shift < word
    → get_varint_loop word last (w ∷ rest) shift acc ≡ some (acc + w * 2 ^ shift, rest)
unfolding get_varint_loop
last_group word last w shift acc rest hw hs ha fits =
    ground (arith, bit_and_128 w, bit_or_shifted shift acc w, mod_small (w * 2 ^ shift) word)
  where
    mod_small : (x m : ℕ) → x < m → x % m ≡ x
    mod_small x m h = grind arith

inner_group :
    (word last g shift acc : ℕ) (rest : List ℕ)
    → g < 128
    → shift ≤ last
    → acc < 2 ^ shift
    → acc + g * 2 ^ shift < word
    → get_varint_loop word last ((g + 128) ∷ rest) shift acc
      ≡ get_varint_loop word last rest (shift + 7) (acc + g * 2 ^ shift)
unfolding get_varint_loop
inner_group word last g shift acc rest hg hs ha fits = ground (
  arith,
  bit_and_128 (g + 128),
  bit_and_127 (g + 128),
  bit_or_shifted shift acc g,
  mod_small (g * 2 ^ shift) word,
)
  where
    mod_small : (x m : ℕ) → x < m → x % m ≡ x
    mod_small x m h = grind arith

-- The lowest group of `w` and the rest, both shifted by `s`.
split_low : (w s : ℕ) → w * 2 ^ s ≡ w % 128 * 2 ^ s + w / 128 * 2 ^ (s + 7)
split_low w s = omega (
  arith,
  ap (λ (t : ℕ). t * 2 ^ s) (div-add-mod w 128),
  ap (λ (t : ℕ). w / 128 * t) (pow_seven_more s),
)

low_fits : (g acc s : ℕ) → g < 128 → acc < 2 ^ s → acc + g * 2 ^ s < 2 ^ (s + 7)
low_fits g acc s hg ha = rw (pow_seven_more s) (bound g (2 ^ s) hg ha)
  where
    bound : (g q : ℕ) → g < 128 → acc < q → acc + g * q < 128 * q
    bound g q h k = grind (arith, scaled g q h)
      where
        scaled : (g q : ℕ) → g < 128 → g * q ≤ 127 * q
        scaled g q h = grind arith

-- The loop reads the groups of `w`, which count from bit `shift` on.
loop-groups :
    (word last k w shift acc : ℕ) (rest : List ℕ)
    → w < 128 ^ suc k
    → shift + 7 * k ≤ last
    → acc < 2 ^ shift
    → acc + w * 2 ^ shift < word
    → get_varint_loop word last (groups k w ++ rest) shift acc ≡ some (acc + w * 2 ^ shift, rest)
unfolding groups
loop-groups word last zero w shift acc rest hw hs ha fits =
    last_group word last w shift acc rest hw (omega arith) ha fits
loop-groups word last (suc k) w shift acc rest hw hs ha fits = ground (
  arith,
  last_group word last w shift acc rest,
  split_low w shift,
  low_fits (w % 128) acc shift,
  inner_group word last (w % 128) shift acc (groups k (w / 128) ++ rest),
  loop-groups word last k (w / 128) (shift + 7) (acc + w % 128 * 2 ^ shift) rest (omega arith),
)

fallback-groups :
    (v : ℕ) (rest : List ℕ)
    → v < 2 ^ 32
    → get_varint32_ptr_fallback (groups 4 v ++ rest) ≡ some (v, rest)
unfolding get_varint32_ptr_fallback
fallback-groups v rest h =
    ground (arith, loop-groups (2 ^ 32) 28 4 v 0 0 rest (omega arith) (omega arith))

-- GetVarint32 reads back the uint32 that PutVarint32 wrote and leaves the bytes behind it.
pub get_varint32-encode_varint32 :
    (v : ℕ) (rest : List ℕ) → v < 2 ^ 32 → get_varint32 (encode_varint32 v ++ rest) ≡ some (v, rest)
unfolding get_varint32
get_varint32-encode_varint32 v rest h =
    let (b, p, e, hb) = groups-cons 4 v (omega arith) in
    rw (encode_varint32-groups v h, e)
      (fast_path b (p ++ rest) hb ∙ (rw e at (fallback-groups v rest h)))

-- GetVarint64 reads back the uint64 that PutVarint64 wrote and leaves the bytes behind it.
pub get_varint64-encode_varint64 :
    (v : ℕ) (rest : List ℕ) → v < 2 ^ 64 → get_varint64 (encode_varint64 v ++ rest) ≡ some (v, rest)
unfolding get_varint64 get_varint64_ptr
get_varint64-encode_varint64 v rest h =
    rw (encode_varint64-groups v h)
      (ground (arith, loop-groups (2 ^ 64) 63 9 v 0 0 rest (omega arith) (omega arith)))

-- GetLengthPrefixedSlice reads back the slice that PutLengthPrefixedSlice wrote, of any bytes and
-- a length below 2^32, and leaves the bytes behind it.
pub get_length_prefixed_slice-put :
    (value rest : List ℕ)
    → length value < 2 ^ 32
    → get_length_prefixed_slice (put_length_prefixed_slice [] value ++ rest) ≡ some (value, rest)
unfolding get_length_prefixed_slice put_length_prefixed_slice put_varint32
get_length_prefixed_slice-put value rest h =
    let len = length value in
    let small : len % 2 ^ 32 ≡ len = omega arith in
    rw (small, append_assoc, get_varint32-encode_varint32 len (value ++ rest) h)
      (rw (enough, take-append, drop-append))
  where
    enough : leb (length value) (length (value ++ rest)) ≡ true
    enough = le→leb _ _ (omega (arith, length-append value rest))
