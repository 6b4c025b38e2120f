-- ===== src/Base/Bits.antt =====
-- Masks, joins and shifts of machine words as arithmetic. The libraries have no law for `bit_and`
-- and `bit_or` at variables but their definition by digits with a count; the first lemmas drop the
-- count, and the others are what the codecs of kv/util need.
use Prim.Native.Nat.{
  ℕ, zero, suc, ◌+◌, ◌-◌, ◌*◌, ◌/◌, ◌%◌, ◌^◌, ◌≤◌, ◌<◌, min, max, bit_and, bit_or, digits,
  bit_and-bitwise, bit_or-bitwise,
}
use mathlib.Core.Path.{◌≡◌, refl, ap}
use native.Mathlib.Omega.{arith}
use native.Mathlib.Nat.{pow-suc}
use native.Mathlib.Numerals.{towards_suc}

module _ (ended : ℕ → ℕ) (op : ℕ → ℕ → ℕ) where
  -- Any two counts of at least `a` digits give one result.
  digits_count : (c d a b : ℕ) → a ≤ c → a ≤ d → digits ended op c a b ≡ digits ended op d a b
  digits_count zero zero a b h k = refl
  digits_count (suc c) zero zero b h k = refl
  digits_count zero (suc d) zero b h k = refl
  digits_count (suc c) (suc d) zero b h k = refl
  digits_count zero (suc d) (suc a) b h k = absurd (omega arith)
  digits_count (suc c) zero (suc a) b h k = absurd (omega arith)
  digits_count (suc c) (suc d) (suc a) b h k =
      omega (arith, digits_count c d (suc a / 2) (b / 2) (omega arith) (omega arith))

pub or_step : (a b : ℕ) → bit_or a b ≡ bit_or (a / 2) (b / 2) * 2 + max (a % 2) (b % 2)
or_step zero b = omega (arith, bit_or-bitwise 0 b, bit_or-bitwise 0 (b / 2))
or_step (suc a) b = omega (
  arith,
  bit_or-bitwise (suc a) b,
  bit_or-bitwise (suc a / 2) (b / 2),
  digits_count (λ y. y) max a (suc a / 2) (suc a / 2) (b / 2) (omega arith) (omega arith),
)

pub and_step : (a b : ℕ) → bit_and a b ≡ bit_and (a / 2) (b / 2) * 2 + min (a % 2) (b % 2)
and_step zero b = omega (arith, bit_and-bitwise 0 b, bit_and-bitwise 0 (b / 2))
and_step (suc a) b = omega (
  arith,
  bit_and-bitwise (suc a) b,
  bit_and-bitwise (suc a / 2) (b / 2),
  digits_count (λ y. 0) min a (suc a / 2) (suc a / 2) (b / 2) (omega arith) (omega arith),
)

or_nothing : (k a : ℕ) → a ≤ k → bit_or a 0 ≡ a
or_nothing k zero h = refl
or_nothing zero (suc a) h = absurd (omega arith)
or_nothing (suc k) (suc a) h =
    omega (arith, or_step (suc a) 0, or_nothing k (suc a / 2) (omega arith))

and_nothing : (k a : ℕ) → a ≤ k → bit_and a 0 ≡ 0
and_nothing k zero h = refl
and_nothing zero (suc a) h = absurd (omega arith)
and_nothing (suc k) (suc a) h =
    omega (arith, and_step (suc a) 0, and_nothing k (suc a / 2) (omega arith))

pub bit_or-zero : (a : ℕ) → bit_or a 0 ≡ a
bit_or-zero a = or_nothing a a (omega arith)

pub bit_and-zero : (a : ℕ) → bit_and a 0 ≡ 0
bit_and-zero a = and_nothing a a (omega arith)

double_shift : (x k : ℕ) → x * 2 ^ suc k ≡ x * 2 ^ k * 2
double_shift x k = omega (arith, ap (λ (t : ℕ). x * t) (pow-suc 2 k))

halved : (x k : ℕ) → x * 2 ^ suc k / 2 ≡ x * 2 ^ k
halved x k = omega (arith, double_shift x k)

one_le_pow : (k : ℕ) → 1 ≤ 2 ^ k
one_le_pow zero = omega arith
one_le_pow (suc k) = omega (arith, pow-suc 2 k, one_le_pow k)

-- A mask of the `k` lowest bits.
pub bit_and-low : (k q r : ℕ) → r < 2 ^ k → bit_and (q * 2 ^ k + r) (2 ^ k - 1) ≡ r
bit_and-low zero q r h = omega (arith, bit_and-zero (q * 1 + r))
bit_and-low (suc k) q r h = omega (
  arith,
  and_step (q * 2 ^ suc k + r) (2 ^ suc k - 1),
  double_shift q k,
  pow-suc 2 k,
  one_le_pow k,
  ap (bit_and ((q * 2 ^ suc k + r) / 2)) mask_half,
  ap (λ (t : ℕ). bit_and t (2 ^ k - 1)) word_half,
  bit_and-low k q (r / 2) (omega (arith, pow-suc 2 k)),
)
  where
    mask_half : (2 ^ suc k - 1) / 2 ≡ 2 ^ k - 1
    mask_half = omega (arith, pow-suc 2 k, one_le_pow k)

    word_half : (q * 2 ^ suc k + r) / 2 ≡ q * 2 ^ k + r / 2
    word_half = omega (arith, double_shift q k)

-- `r | (x << k)` is a sum where `r` has `k` bits.
pub bit_or_shifted : (k r x : ℕ) → r < 2 ^ k → bit_or r (x * 2 ^ k) ≡ r + x * 2 ^ k
bit_or_shifted zero zero x h = omega (arith, bit_or-bitwise 0 (x * 1))
bit_or_shifted zero (suc r) x h = absurd (omega arith)
bit_or_shifted (suc k) r x h = omega (
  arith,
  or_step r (x * 2 ^ suc k),
  double_shift x k,
  ap (bit_or (r / 2)) (halved x k),
  bit_or_shifted k (r / 2) x (omega (arith, pow-suc 2 k)),
)

-- `(x << k) | r` is a sum where `r` has `k` bits.
pub bit_or_low : (k x r : ℕ) → r < 2 ^ k → bit_or (x * 2 ^ k) r ≡ x * 2 ^ k + r
bit_or_low zero x zero h = omega (arith, bit_or-zero (x * 1))
bit_or_low zero x (suc r) h = absurd (omega arith)
bit_or_low (suc k) x r h = omega (
  arith,
  or_step (x * 2 ^ suc k) r,
  double_shift x k,
  ap (λ (t : ℕ). bit_or t (r / 2)) (halved x k),
  bit_or_low k x (r / 2) (omega (arith, pow-suc 2 k)),
)

or_even : (a m : ℕ) → bit_or a (2 * m) ≡ bit_or (a / 2) m * 2 + a % 2
or_even a m = omega (arith, or_step a (2 * m), ap (bit_or (a / 2)) (half m))
  where
    half : (m : ℕ) → 2 * m / 2 ≡ m
    half m = omega arith

or_one : (a : ℕ) → bit_or a 1 ≡ a / 2 * 2 + 1
or_one a = omega (arith, or_step a 1, bit_or-zero (a / 2))

or_bit_1 : (a : ℕ) → bit_or a 2 ≡ a / 4 * 4 + 2 + a % 2
or_bit_1 a = omega (arith, or_even a 1, or_one (a / 2))

or_bit_2 : (a : ℕ) → bit_or a 4 ≡ a / 8 * 8 + 4 + a % 4
or_bit_2 a = omega (arith, or_even a 2, or_bit_1 (a / 2))

or_bit_3 : (a : ℕ) → bit_or a 8 ≡ a / 16 * 16 + 8 + a % 8
or_bit_3 a = omega (arith, or_even a 4, or_bit_2 (a / 2))

or_bit_4 : (a : ℕ) → bit_or a 16 ≡ a / 32 * 32 + 16 + a % 16
or_bit_4 a = omega (arith, or_even a 8, or_bit_3 (a / 2))

or_bit_5 : (a : ℕ) → bit_or a 32 ≡ a / 64 * 64 + 32 + a % 32
or_bit_5 a = omega (arith, or_even a 16, or_bit_4 (a / 2))

or_bit_6 : (a : ℕ) → bit_or a 64 ≡ a / 128 * 128 + 64 + a % 64
or_bit_6 a = omega (arith, or_even a 32, or_bit_5 (a / 2))

or_bit_7 : (a : ℕ) → bit_or a 128 ≡ a / 256 * 256 + 128 + a % 128
or_bit_7 a = omega (arith, or_even a 64, or_bit_6 (a / 2))

-- The stores of the varint encoders: `v | 128` cut to a byte.
pub continuation_byte : (v : ℕ) → bit_or v 128 % 256 ≡ v % 128 + 128
continuation_byte v = omega (arith, or_bit_7 v)

and_one : (a : ℕ) → bit_and a 1 ≡ a % 2
and_one a = omega (arith, and_step a 1, bit_and-zero (a / 2))

and_low_2 : (a : ℕ) → bit_and a 3 ≡ a % 4
and_low_2 a = omega (arith, and_step a 3, and_one (a / 2))

and_low_3 : (a : ℕ) → bit_and a 7 ≡ a % 8
and_low_3 a = omega (arith, and_step a 7, and_low_2 (a / 2))

and_low_4 : (a : ℕ) → bit_and a 15 ≡ a % 16
and_low_4 a = omega (arith, and_step a 15, and_low_3 (a / 2))

and_low_5 : (a : ℕ) → bit_and a 31 ≡ a % 32
and_low_5 a = omega (arith, and_step a 31, and_low_4 (a / 2))

and_low_6 : (a : ℕ) → bit_and a 63 ≡ a % 64
and_low_6 a = omega (arith, and_step a 63, and_low_5 (a / 2))

pub bit_and_127 : (a : ℕ) → bit_and a 127 ≡ a % 128
bit_and_127 a = omega (arith, and_step a 127, and_low_6 (a / 2))

and_bit_1 : (a : ℕ) → bit_and a 2 ≡ a / 2 % 2 * 2
and_bit_1 a = omega (arith, and_step a 2, and_one (a / 2))

and_bit_2 : (a : ℕ) → bit_and a 4 ≡ a / 4 % 2 * 4
and_bit_2 a = omega (arith, and_step a 4, and_bit_1 (a / 2))

and_bit_3 : (a : ℕ) → bit_and a 8 ≡ a / 8 % 2 * 8
and_bit_3 a = omega (arith, and_step a 8, and_bit_2 (a / 2))

and_bit_4 : (a : ℕ) → bit_and a 16 ≡ a / 16 % 2 * 16
and_bit_4 a = omega (arith, and_step a 16, and_bit_3 (a / 2))

and_bit_5 : (a : ℕ) → bit_and a 32 ≡ a / 32 % 2 * 32
and_bit_5 a = omega (arith, and_step a 32, and_bit_4 (a / 2))

and_bit_6 : (a : ℕ) → bit_and a 64 ≡ a / 64 % 2 * 64
and_bit_6 a = omega (arith, and_step a 64, and_bit_5 (a / 2))

pub bit_and_128 : (a : ℕ) → bit_and a 128 ≡ a / 128 % 2 * 128
bit_and_128 a = omega (arith, and_step a 128, and_bit_6 (a / 2))

pub bit_and_255 : (a : ℕ) → bit_and a 255 ≡ a % 256
bit_and_255 a = omega (arith, and_step a 255, bit_and_127 (a / 2))

-- A join of two words of `k` bits has `k` bits.
pub bit_or_fits : (k a b : ℕ) → a < 2 ^ k → b < 2 ^ k → bit_or a b < 2 ^ k
bit_or_fits zero zero zero h g = omega (arith, bit_or-zero 0)
bit_or_fits zero (suc a) b h g = absurd (omega arith)
bit_or_fits zero zero (suc b) h g = absurd (omega arith)
bit_or_fits (suc k) a b h g = omega (
  arith,
  or_step a b,
  pow-suc 2 k,
  bit_or_fits k (a / 2) (b / 2) (omega (arith, pow-suc 2 k)) (omega (arith, pow-suc 2 k)),
)

-- One more group of seven bits.
pub pow_seven_more : (s : ℕ) → 2 ^ (s + 7) ≡ 128 * 2 ^ s
pow_seven_more s = simp towards_suc (omega arith)

bit_or_above_upto : (k a b : ℕ) → a ≤ k → b ≤ k → (a ≤ bit_or a b) × (b ≤ bit_or a b)
bit_or_above_upto zero a b h i = (omega arith, omega arith)
bit_or_above_upto (suc k) a b h i =
    let (left, right) = bit_or_above_upto k (a / 2) (b / 2) (omega arith) (omega arith) in
    (omega (arith, or_step a b), omega (arith, or_step a b))

-- A join is at least each of its sides.
pub bit_or_above : (a b : ℕ) → (a ≤ bit_or a b) × (b ≤ bit_or a b)
bit_or_above a b = bit_or_above_upto (a + b) a b (omega arith) (omega arith)
