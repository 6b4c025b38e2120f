-- ===== src/Util/Crc32c/Mask.antt =====
-- Masking a checksum loses nothing.
use quas_db.Base.{ℕ, ◌+◌, ◌-◌, ◌*◌, ◌/◌, ◌%◌, ◌^◌, ◌<◌, bit_or, ◌≡◌, ap, ◌∙◌, arith}
use quas_db.Base.Bits.{bit_or_shifted}
use quas_db.Util.Crc32c.{mask, unmask, mask_delta}

rotate_right :
    (c : ℕ)
    → c < 2 ^ 32
    → bit_or (c / 2 ^ 15) (c * 2 ^ 17 % 2 ^ 32) ≡ c / 2 ^ 15 + c % 2 ^ 15 * 2 ^ 17
rotate_right c h =
    ap (bit_or (c / 2 ^ 15)) (omega arith)
    ∙ bit_or_shifted 17 (c / 2 ^ 15) (c % 2 ^ 15) (omega arith)

rotate_left :
    (c : ℕ)
    → c < 2 ^ 32
    → bit_or (c / 2 ^ 17) (c * 2 ^ 15 % 2 ^ 32) ≡ c / 2 ^ 17 + c % 2 ^ 17 * 2 ^ 15
rotate_left c h =
    ap (bit_or (c / 2 ^ 17)) (omega arith)
    ∙ bit_or_shifted 15 (c / 2 ^ 17) (c % 2 ^ 17) (omega arith)

pub mask-fits : (c : ℕ) → mask c < 2 ^ 32
unfolding mask
mask-fits c = omega arith

-- Unmask gives back the checksum that Mask was given, of any 32-bit value.
pub unmask-mask : (c : ℕ) → c < 2 ^ 32 → unmask (mask c) ≡ c
unfolding mask unmask
unmask-mask c h =
    ap (λ (t : ℕ). bit_or (t / 2 ^ 17) (t * 2 ^ 15 % 2 ^ 32)) unshifted
    ∙ rotate_left (c / 2 ^ 15 + c % 2 ^ 15 * 2 ^ 17) (omega arith)
    ∙ omega arith
  where
    unshifted :
        ((bit_or (c / 2 ^ 15) (c * 2 ^ 17 % 2 ^ 32) + mask_delta) % 2 ^ 32 + 2 ^ 32 - mask_delta)
          % 2 ^ 32
        ≡ c / 2 ^ 15 + c % 2 ^ 15 * 2 ^ 17
    unshifted = omega (arith, rotate_right c h)
