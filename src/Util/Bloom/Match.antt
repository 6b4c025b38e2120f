-- ===== src/Util/Bloom/Match.antt =====
-- A filter matches every key that it was made from.
use quas_db.Base.{
  ℕ, zero, suc, ◌+◌, ◌-◌, ◌*◌, ◌/◌, ◌%◌, ◌^◌, ◌≤◌, ◌<◌, ◌≡◌, refl, ap, ◌∙◌, true, false, ltb, List,
  [], ◌∷◌, ◌++◌, length, length-append, drop, drop-append, get_or, replicate, arith,
}
use native.Mathlib.Nat.{mod-lt}
use quas_db.Util.Bloom.{
  BloomFilterPolicy, new_bloom_filter_policy, bloom_hash, delta_of, set_bit, add_probes, add_keys,
  filter_bytes, create_filter, match_probes, key_may_match,
}
use quas_db.Util.Bloom.Bits.{
  bit-and, HasBit, length-or_at, or_at-other, set_bit-HasBit, set_bit-keeps,
}

not_ltb : (a b : ℕ) → b ≤ a → ltb a b ≡ false
not_ltb a b h = ground arith

module _ (bits : ℕ) (positive : 1 ≤ bits) where
  in_array : (h : ℕ) (array : List ℕ) → bits ≤ 8 * length array → h % bits / 8 < length array
  in_array h array fits = omega (arith, mod-lt h positive)

  abbrev Probed : ℕ → ℕ → ℕ → List ℕ → Type 0
  Probed zero h delta array = Unit {0}
  Probed (suc k) h delta array =
      HasBit (h % bits) array × Probed k ((h + delta) % 2 ^ 32) delta array

  Probed-set_bit :
      (k h delta pos : ℕ) (array : List ℕ)
      → pos / 8 < length array
      → Probed k h delta array
      → Probed k h delta (set_bit pos array)
  Probed-set_bit zero h delta pos array b p = tt
  Probed-set_bit (suc k) h delta pos array b (p, ps) = (
    set_bit-keeps pos (h % bits) array b p,
    Probed-set_bit k ((h + delta) % 2 ^ 32) delta pos array b ps,
  )

  length-set_bit : (pos : ℕ) (array : List ℕ) → length (set_bit pos array) ≡ length array
  length-set_bit pos array = length-or_at (pos / 8) (2 ^ (pos % 8)) array

  -- What holds of an array and is kept by each bit that is set, holds after a key is added.
  add_probes-keeps :
      (P : List ℕ → Type 0)
      → ((pos : ℕ) (array : List ℕ)
          → pos < bits
          → bits ≤ 8 * length array
          → P array
          → P (set_bit pos array))
      → (k h delta : ℕ) (array : List ℕ) → bits ≤ 8 * length array
      → P array
      → P (add_probes k h delta bits array) × (bits ≤ 8 * length (add_probes k h delta bits array))
  unfolding add_probes
  add_probes-keeps P keep zero h delta array fits p = (p, fits)
  add_probes-keeps P keep (suc k) h delta array fits p =
      add_probes-keeps P keep k ((h + delta) % 2 ^ 32) delta (set_bit (h % bits) array)
        (rw (length-set_bit (h % bits) array) fits)
        (keep (h % bits) array (mod-lt h positive) fits p)

  add_probes-Probed :
      (k h delta : ℕ) (array : List ℕ)
      → bits ≤ 8 * length array
      → Probed k h delta (add_probes k h delta bits array)
  unfolding add_probes
  add_probes-Probed zero h delta array fits = tt
  add_probes-Probed (suc k) h delta array fits =
      let more : bits ≤ 8 * length (set_bit (h % bits) array) =
        rw (length-set_bit (h % bits) array) fits in
      (
        (add_probes-keeps (HasBit (h % bits))
            (λ pos a b f has. set_bit-keeps pos (h % bits) a (omega arith) has) k
            ((h + delta) % 2 ^ 32) delta (set_bit (h % bits) array) more
            (set_bit-HasBit (h % bits) array (in_array h array fits))).0,
        add_probes-Probed k ((h + delta) % 2 ^ 32) delta (set_bit (h % bits) array) more,
      )

  match_probes-Probed :
      (k h delta : ℕ) (array : List ℕ)
      → Probed k h delta array
      → match_probes k h delta bits array ≡ true
  unfolding match_probes
  match_probes-Probed zero h delta array p = refl
  match_probes-Probed (suc k) h delta array (p, ps) = ground (
    arith,
    bit-and (h % bits % 8) (get_or array (h % bits / 8) 0),
    match_probes-Probed k ((h + delta) % 2 ^ 32) delta array ps,
  )

  add_keys-keeps :
      (P : List ℕ → Type 0)
      → ((pos : ℕ) (array : List ℕ)
          → pos < bits
          → bits ≤ 8 * length array
          → P array
          → P (set_bit pos array))
      → (k : ℕ) (keys : List (List ℕ)) (array : List ℕ) → bits ≤ 8 * length array
      → P array
      → P (add_keys k bits keys array) × (bits ≤ 8 * length (add_keys k bits keys array))
  unfolding add_keys
  add_keys-keeps P keep k [] array fits p = (p, fits)
  add_keys-keeps P keep k (key ∷ keys) array fits p =
      let (q, more) =
        add_probes-keeps P keep k (bloom_hash key) (delta_of (bloom_hash key)) array fits p in
      add_keys-keeps P keep k keys
        (add_probes k (bloom_hash key) (delta_of (bloom_hash key)) bits array) more q

  -- Each key has its bits once all keys are added.
  add_keys-Probed :
      (k : ℕ) (before : List (List ℕ)) (key : List ℕ) (after : List (List ℕ)) (array : List ℕ)
      → bits ≤ 8 * length array
      → Probed k
          (bloom_hash key)
          (delta_of (bloom_hash key))
          (add_keys k bits (before ++ (key ∷ after)) array)
  unfolding add_keys
  add_keys-Probed k [] key after array fits =
      let h = bloom_hash key in
      let added = add_probes k h (delta_of h) bits array in
      (add_keys-keeps (Probed k h (delta_of h))
        (λ pos a b f p. Probed-set_bit k h (delta_of h) pos a (omega arith) p) k after added
        (add_probes-keeps (λ a. Unit {0}) (λ pos a b f p. tt) k h (delta_of h) array fits tt).1
        (add_probes-Probed k h (delta_of h) array fits)).0
  add_keys-Probed k (other ∷ before) key after array fits =
      add_keys-Probed k before key after
        (add_probes k (bloom_hash other) (delta_of (bloom_hash other)) bits array)
        (add_probes-keeps (λ a. Unit {0}) (λ pos a b f p. tt) k (bloom_hash other)
          (delta_of (bloom_hash other)) array fits tt).1

  key_may_match-Probed :
      (key array : List ℕ) (k : ℕ)
      → (length array - 1) * 8 ≡ bits
      → get_or array (length array - 1) 0 ≡ k
      → k ≤ 30
      → Probed k (bloom_hash key) (delta_of (bloom_hash key)) array
      → key_may_match key array ≡ true
  unfolding key_may_match
  key_may_match-Probed key array k size last few p =
      rw
        (
          size,
          last,
          not_ltb (length array) 2 (omega (arith, size, positive)),
          not_ltb 30 k few,
          match_probes-Probed k (bloom_hash key) (delta_of (bloom_hash key)) array p,
        )
        refl

length-replicate : (n v : ℕ) → length (replicate n v) ≡ n
length-replicate zero v = refl
length-replicate (suc n) v = ap suc (length-replicate n v)

last_byte : (n v k : ℕ) → get_or (replicate n v ++ (k ∷ [])) n 0 ≡ k
last_byte zero v k = refl
last_byte (suc n) v k = last_byte n v k

enough_bytes :
    (policy : BloomFilterPolicy) (n : ℕ)
    → n * policy.bits_per_key + 7 < 2 ^ 64
    → 8 ≤ filter_bytes policy n
unfolding filter_bytes
enough_bytes policy n h = ground arith

few_probes : (bits_per_key scaled : ℕ) → (new_bloom_filter_policy bits_per_key scaled).k ≤ 30
unfolding new_bloom_filter_policy
few_probes bits_per_key scaled = ground arith

-- No false negatives: a filter that was made from some keys, behind what was in the string before,
-- matches each of them. The size of the filter in bits does not overflow 64 bits.
pub key_may_match-create_filter :
    (bits_per_key scaled : ℕ) (before : List (List ℕ)) (key : List ℕ) (after : List (List ℕ))
    (dst : List ℕ)
    → length (before ++ (key ∷ after)) * bits_per_key + 7 < 2 ^ 64
    → key_may_match key (
        drop (length dst) (
          create_filter
            (new_bloom_filter_policy bits_per_key scaled)
            (before ++ (key ∷ after))
            dst))
      ≡ true
unfolding create_filter new_bloom_filter_policy
key_may_match-create_filter bits_per_key scaled before key after dst h =
    let policy = new_bloom_filter_policy bits_per_key scaled in
    let keys = before ++ (key ∷ after) in
    let bytes = filter_bytes policy (length keys) in
    let size : 8 ≤ bytes = enough_bytes policy (length keys) h in
    rw (drop-append dst)
      (made policy.k bytes before key after size (few_probes bits_per_key scaled))
  where
    made :
        (k bytes : ℕ) (before : List (List ℕ)) (key : List ℕ) (after : List (List ℕ))
        → 8 ≤ bytes
        → k ≤ 30
        → key_may_match key
            (add_keys k (bytes * 8) (before ++ (key ∷ after)) (replicate bytes 0 ++ (k ∷ [])))
          ≡ true
    made k bytes before key after size few =
        let start = replicate bytes 0 ++ (k ∷ []) in
        let array = add_keys k (bytes * 8) (before ++ (key ∷ after)) start in
        let long : length start ≡ bytes + 1 =
          omega (arith, length-append (replicate bytes 0) (k ∷ []), length-replicate bytes 0) in
        let kept : (length array ≡ bytes + 1) × (get_or array bytes 0 ≡ k) =
          (add_keys-keeps (bytes * 8) (omega arith)
            (λ a. (length a ≡ bytes + 1) × (get_or a bytes 0 ≡ k))
            (λ pos a b f (l, last). (
              length-or_at (pos / 8) (2 ^ (pos % 8)) a ∙ l,
              or_at-other (pos / 8) bytes (2 ^ (pos % 8)) a (λ e. omega (arith, e, b)) ∙ last,
            ))
            k (before ++ (key ∷ after)) start (omega (arith, long))
            (long, last_byte bytes 0 k)).0 in
        key_may_match-Probed (bytes * 8) (omega arith) key array k (omega (arith, kept.0))
          (ap (λ (n : ℕ). get_or array n 0) (omega (arith, kept.0)) ∙ kept.1) few
          (add_keys-Probed (bytes * 8) (omega arith) k before key after start (omega (arith, long)))
