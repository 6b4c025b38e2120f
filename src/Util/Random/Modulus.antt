-- ===== src/Util/Random/Modulus.antt =====
-- The generator without a division.
use quas_db.Base.{ℕ, ◌*◌, ◌/◌, ◌%◌, ◌^◌, ◌≤◌, ◌<◌, bit_and, ◌≡◌, ap, ◌∙◌, arith}
use quas_db.Base.Bits.{bit_and-low}
use quas_db.Util.Random.{modulus, random_next}

-- Next computes seed * 16807 mod 2^31 - 1 without a division, for every seed from 1 up to below
-- 2^31 - 1, and gives such a seed again: the sum is never the modulus itself.
pub random_next-mod :
    (seed : ℕ)
    → 1 ≤ seed
    → seed < modulus
    → (random_next seed ≡ seed * 16807 % modulus)
      × (1 ≤ random_next seed)
      × (random_next seed < modulus)
unfolding random_next
random_next-mod seed h k =
    let product_small : seed * 16807 % 2 ^ 64 ≡ seed * 16807 = omega arith in
    let low : bit_and (seed * 16807) modulus ≡ seed * 16807 % 2 ^ 31 =
      ap (λ (t : ℕ). bit_and t modulus) (omega arith)
      ∙ bit_and-low 31 (seed * 16807 / 2 ^ 31) (seed * 16807 % 2 ^ 31) (omega arith) in
    rw (product_small, low) (ground arith)
