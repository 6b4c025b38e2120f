-- ===== src/Util/Bloom/Bits.antt =====
-- Setting a bit of an array, and testing it.
use quas_db.Base.{
  ℕ, zero, suc, ◌/◌, ◌%◌, ◌^◌, ◌≤◌, ◌<◌, bit_and, bit_or, ◌≡◌, ◌≢◌, refl, ap, ◌==◌, Bool-cases, inl,
  inr, List, [], ◌∷◌, length, get_or, arith,
}
use Prim.Native.Nat.{max}
use native.Mathlib.Nat.{pow-suc}
use quas_db.Base.Bits.{and_step, or_step}
use quas_db.Util.Bloom.{or_at, set_bit}

-- The bit at place `j`.
unfoldable pub bit : ℕ → ℕ → ℕ
bit zero a = a % 2
bit (suc j) a = bit j (a / 2)

bit_le : (j a : ℕ) → bit j a ≤ 1
unfolding bit
bit_le zero a = omega arith
bit_le (suc j) a = bit_le j (a / 2)

bit-or : (j a b : ℕ) → bit j (bit_or a b) ≡ max (bit j a) (bit j b)
unfolding bit
bit-or zero a b = omega (arith, or_step a b)
bit-or (suc j) a b =
    let half : bit_or a b / 2 ≡ bit_or (a / 2) (b / 2) = omega (arith, or_step a b) in
    rw half (bit-or j (a / 2) (b / 2))

bit-power : (j : ℕ) → bit j (2 ^ j) ≡ 1
unfolding bit
bit-power zero = omega arith
bit-power (suc j) =
    let half : 2 ^ suc j / 2 ≡ 2 ^ j = omega (arith, pow-suc 2 j) in rw half (bit-power j)

pub bit-and : (j a : ℕ) → bit_and a (2 ^ j) ≡ 0 → bit j a ≡ 0
unfolding bit
bit-and zero a e = omega (arith, and_step a 1)
bit-and (suc j) a e =
    let half : 2 ^ suc j / 2 ≡ 2 ^ j = omega (arith, pow-suc 2 j) in
    bit-and j (a / 2) (omega (arith, and_step a (2 ^ suc j), ap (bit_and (a / 2)) half))

-- The bit of an array.
abbrev pub HasBit : ℕ → List ℕ → Type 0
HasBit pos array = bit (pos % 8) (get_or array (pos / 8) 0) ≡ 1

pub length-or_at : (i mask : ℕ) (array : List ℕ) → length (or_at i mask array) ≡ length array
unfolding or_at
length-or_at zero mask [] = refl
length-or_at (suc i) mask [] = refl
length-or_at zero mask (b ∷ array) = refl
length-or_at (suc i) mask (b ∷ array) = ap suc (length-or_at i mask array)

or_at-same :
    (i mask : ℕ) (array : List ℕ)
    → i < length array
    → get_or (or_at i mask array) i 0 ≡ bit_or (get_or array i 0) mask
unfolding or_at
or_at-same i mask [] h = absurd (omega arith)
or_at-same zero mask (b ∷ array) h = refl
or_at-same (suc i) mask (b ∷ array) h = or_at-same i mask array (omega arith)

pub or_at-other :
    (i j mask : ℕ) (array : List ℕ) → i ≢ j → get_or (or_at i mask array) j 0 ≡ get_or array j 0
unfolding or_at
or_at-other zero j mask [] h = refl
or_at-other (suc i) j mask [] h = refl
or_at-other zero zero mask (b ∷ array) h = absurd (h refl)
or_at-other zero (suc j) mask (b ∷ array) h = refl
or_at-other (suc i) zero mask (b ∷ array) h = refl
or_at-other (suc i) (suc j) mask (b ∷ array) h = or_at-other i j mask array (λ e. h (ap suc e))

pub set_bit-HasBit :
    (pos : ℕ) (array : List ℕ) → pos / 8 < length array → HasBit pos (set_bit pos array)
set_bit-HasBit pos array h = rw (or_at-same (pos / 8) (2 ^ (pos % 8)) array h) (
    omega (
      arith,
      bit-or (pos % 8) (get_or array (pos / 8) 0) (2 ^ (pos % 8)),
      bit-power (pos % 8),
      bit_le (pos % 8) (get_or array (pos / 8) 0),
    ))

pub set_bit-keeps :
    (pos q : ℕ) (array : List ℕ)
    → pos / 8 < length array
    → HasBit q array
    → HasBit q (set_bit pos array)
set_bit-keeps pos q array h has = elim (Bool-cases (pos / 8 == q / 8)) [
  | inl here ↦
      let same : pos / 8 ≡ q / 8 = ground arith in
      let kept : get_or (or_at (q / 8) (2 ^ (pos % 8)) array) (q / 8) 0
          ≡ bit_or (get_or array (q / 8) 0) (2 ^ (pos % 8)) =
        or_at-same (q / 8) (2 ^ (pos % 8)) array (rw same at h) in
      rw (same, kept)
        (omega (
          arith,
          bit-or (q % 8) (get_or array (q / 8) 0) (2 ^ (pos % 8)),
          bit_le (q % 8) (2 ^ (pos % 8)),
        ))
  | inr elsewhere ↦ rw (or_at-other (pos / 8) (q / 8) (2 ^ (pos % 8)) array (λ e. ground arith)) has
]
