-- ===== src/Util/Bloom.antt =====
-- kv/util/bloom.cpp: a filter is a string of bytes, the last of which is the number of probes.
pub mod Bits
pub mod Match
use quas_db.Base.{
  ℕ, zero, suc, ◌+◌, ◌-◌, ◌*◌, ◌/◌, ◌%◌, ◌^◌, bit_and, bit_or, Bool, true, false, ltb, ◌==◌,
  if◌then◌else◌, List, [], ◌∷◌, ◌++◌, length, get_or, replicate,
}
use quas_db.Util.Hash.{hash}

pub record BloomFilterPolicy : Type 0 where
  pub bits_per_key : ℕ
  pub k : ℕ

-- `scaled` is bits_per_key * 0.69, a product of floating point numbers, cut to an integer.
unfoldable pub new_bloom_filter_policy : (bits_per_key scaled : ℕ) → BloomFilterPolicy
new_bloom_filter_policy bits_per_key scaled = record {
  bits_per_key = bits_per_key;
  k = if ltb scaled 1 then 1 else if ltb 30 scaled then 30 else scaled;
}

abbrev pub bloom_hash : List ℕ → ℕ
bloom_hash key = hash key 0xbc9f1d34

abbrev pub delta_of : ℕ → ℕ
delta_of h = bit_or (h / 2 ^ 17) (h * 2 ^ 15 % 2 ^ 32)

-- array[i] |= mask
unfoldable pub or_at : ℕ → ℕ → List ℕ → List ℕ
or_at i mask [] = []
or_at zero mask (b ∷ array) = bit_or b mask ∷ array
or_at (suc i) mask (b ∷ array) = b ∷ or_at i mask array

abbrev pub set_bit : ℕ → List ℕ → List ℕ
set_bit bitpos array = or_at (bitpos / 8) (2 ^ (bitpos % 8)) array

unfoldable pub add_probes : (k : ℕ) → (h delta bits : ℕ) → List ℕ → List ℕ
add_probes zero h delta bits array = array
add_probes (suc k) h delta bits array =
    add_probes k ((h + delta) % 2 ^ 32) delta bits (set_bit (h % bits) array)

unfoldable pub add_keys : (k bits : ℕ) → List (List ℕ) → List ℕ → List ℕ
add_keys k bits [] array = array
add_keys k bits (key ∷ keys) array =
    add_keys k bits keys (add_probes k (bloom_hash key) (delta_of (bloom_hash key)) bits array)

-- The size of the array in bytes.
unfoldable pub filter_bytes : BloomFilterPolicy → ℕ → ℕ
filter_bytes policy n =
    let bits = n * policy.bits_per_key % 2 ^ 64 in
    ((if ltb bits 64 then 64 else bits) + 7) % 2 ^ 64 / 8

unfoldable pub create_filter : BloomFilterPolicy → List (List ℕ) → List ℕ → List ℕ
create_filter policy keys dst =
    let bytes = filter_bytes policy (length keys) in
    dst ++ add_keys policy.k (bytes * 8) keys (replicate bytes 0 ++ (policy.k ∷ []))

unfoldable pub match_probes : (k : ℕ) → (h delta bits : ℕ) → List ℕ → Bool
match_probes zero h delta bits array = true
match_probes (suc k) h delta bits array =
    let bitpos = h % bits in
    let rest = match_probes k ((h + delta) % 2 ^ 32) delta bits array in
    if bit_and (get_or array (bitpos / 8) 0) (2 ^ (bitpos % 8)) == 0 then false else rest

-- A last byte above 127 is a negative `char` in the source, and as a size above 30 as well.
unfoldable pub key_may_match : List ℕ → List ℕ → Bool
key_may_match key bloom_filter =
    let len = length bloom_filter in
    let k = get_or bloom_filter (len - 1) 0 in
    if ltb len 2
    then false
    else if ltb 30 k
    then true
    else match_probes k (bloom_hash key) (delta_of (bloom_hash key)) ((len - 1) * 8) bloom_filter
