-- ===== src/Util/Hash.antt =====
-- kv/util/hash.cpp: the hash of the filters and of the cache.
use quas_db.Base.{ℕ, ◌+◌, ◌*◌, ◌/◌, ◌%◌, ◌^◌, bit_xor, List, [], ◌∷◌, length}
use quas_db.Util.Coding.{decode_fixed32}

abbrev multiplier : ℕ
multiplier = 0xc6a4a793

-- `h *= m; h ^= (h >> shift)`.
abbrev mixed : ℕ → ℕ → ℕ
mixed shift h =
    let product = h % 2 ^ 32 * multiplier % 2 ^ 32 in bit_xor product (product / 2 ^ shift)

-- Four bytes at a time, then the remaining ones.
unfoldable pub hash_loop : List ℕ → ℕ → ℕ
hash_loop [] h = h
hash_loop (b0 ∷ []) h = mixed 24 (h + b0)
hash_loop (b0 ∷ b1 ∷ []) h = mixed 24 (h + b1 * 2 ^ 8 + b0)
hash_loop (b0 ∷ b1 ∷ b2 ∷ []) h = mixed 24 (h + b2 * 2 ^ 16 + b1 * 2 ^ 8 + b0)
hash_loop (b0 ∷ b1 ∷ b2 ∷ b3 ∷ input) h =
    hash_loop input (mixed 16 (h + decode_fixed32 (b0 ∷ b1 ∷ b2 ∷ b3 ∷ [])))

unfoldable pub hash : List ℕ → ℕ → ℕ
hash input seed = hash_loop input (bit_xor seed (length input * multiplier % 2 ^ 64) % 2 ^ 32)
