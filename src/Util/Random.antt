-- ===== src/Util/Random.antt =====
-- kv/util/random.h: the state of a generator is its seed.
pub mod Modulus
use quas_db.Base.{ℕ, ◌+◌, ◌-◌, ◌*◌, ◌/◌, ◌%◌, ◌^◌, bit_and, ◌||◌, ltb, ◌==◌, if◌then◌else◌}

abbrev pub modulus : ℕ
modulus = 2147483647

unfoldable pub random_seed : ℕ → ℕ
random_seed s =
    let seed = bit_and s 0x7fffffff in if (seed == 0) || (seed == modulus) then 1 else seed

-- The next seed, which is also the number that is returned.
unfoldable pub random_next : ℕ → ℕ
random_next seed =
    let product = seed * 16807 % 2 ^ 64 in
    let sum = (product / 2 ^ 31 + bit_and product modulus) % 2 ^ 32 in
    if ltb modulus sum then sum - modulus else sum

-- The seed behind, and the number.
abbrev pub uniform : ℕ → ℕ → ℕ × ℕ
uniform seed n = let next_seed = random_next seed in (next_seed, next_seed % n)
