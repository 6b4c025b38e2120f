-- ===== src/Util/Crc32c.antt =====
-- kv/util/crc32c.h: the stored form of a checksum. The checksum of kv/util/crc32c.cpp itself is an
-- interface, with what its header says of Extend.
pub mod Mask
use quas_db.Base.{ℕ, ◌+◌, ◌-◌, ◌*◌, ◌/◌, ◌%◌, ◌^◌, ◌<◌, bit_or, ◌≡◌, List, [], ◌++◌}

-- `extend c s` is the crc32c of A ++ s where c is that of A.
pub record Crc32c : Type 0 where
  pub extend : ℕ → List ℕ → ℕ
  pub extend_fits : (c : ℕ) (s : List ℕ) → extend c s < 2 ^ 32
  pub extend_append : (c : ℕ) (s t : List ℕ) → extend (extend c s) t ≡ extend c (s ++ t)

abbrev pub crc_value : Crc32c → List ℕ → ℕ
crc_value crc s = crc.extend 0 s

abbrev pub mask_delta : ℕ
mask_delta = 0xa282ead8

unfoldable pub mask : ℕ → ℕ
mask crc = (bit_or (crc / 2 ^ 15) (crc * 2 ^ 17 % 2 ^ 32) + mask_delta) % 2 ^ 32

unfoldable pub unmask : ℕ → ℕ
unmask masked_crc =
    let rot = (masked_crc + 2 ^ 32 - mask_delta) % 2 ^ 32 in
    bit_or (rot / 2 ^ 17) (rot * 2 ^ 15 % 2 ^ 32)
