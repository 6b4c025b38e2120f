-- ===== src/Db/DbIter/Sample.antt =====
-- ParseKey: its sampling loop ends.
use quas_db.Base.{
  ℕ, zero, suc, ◌+◌, ◌-◌, ◌*◌, ◌/◌, ◌%◌, ◌^◌, ◌<◌, ◌≤◌, ◌≡◌, refl, ap, ◌∙◌, Bool-cases, inl, inr,
  ltb, ltb→lt, bit_and, some, List, [], length, arith,
}
use quas_db.Base.Bits.{bit_and-low}
use quas_db.Util.Random.{modulus, random_seed, random_next}
use quas_db.Util.Iterator.{Iterator}
use quas_db.Db.Format.{ParsedInternalKey, append_internal_key, parse_internal_key}
use quas_db.Db.Format.Keys.{parse_internal_key-append}
use quas_db.Db.DbIter.{DbIter, sample_loop, parse_key}
use quas_db.Util.Random.Modulus.{random_next-mod}

abbrev pub IsSeed : ℕ → Type 0
IsSeed seed = (1 ≤ seed) × (seed < modulus)

pub IsSeed-random_next : (seed : ℕ) → IsSeed seed → IsSeed (random_next seed)
IsSeed-random_next seed (h, k) = let (e, l, u) = random_next-mod seed h k in (l, u)

-- After a number that the period leaves without a rest comes one with a rest.
pub period_later : (seed : ℕ) → IsSeed seed → 1 ≤ seed % 2 ^ 21 + random_next seed % 2 ^ 21
period_later seed (h, k) = let (e, l, u) = random_next-mod seed h k in omega (arith, e, l, u, h, k)

-- A sample changes only what the sampling needs.
pub record SameBut {I D : Type 0} (st st' : DbIter I D) : Type 0 where
  pub iter : st'.iter ≡ st.iter
  pub status : st'.status ≡ st.status
  pub saved_key : st'.saved_key ≡ st.saved_key
  pub saved_value : st'.saved_value ≡ st.saved_value
  pub direction : st'.direction ≡ st.direction
  pub is_valid : st'.is_valid ≡ st.is_valid
  pub seeded : IsSeed st'.rnd
  pub below : st'.bytes_until_read_sampling < 2 ^ 63

module _ {I D : Type 0} (iterator : Iterator I) (record_read_sample : D → List ℕ → D) where
  -- Two rounds take the loop one byte further at least.
  sample_loop-SameBut :
      (fuel : ℕ) (k : List ℕ) (bytes_read : ℕ) (st : DbIter I D)
      → bytes_read < 2 ^ 62
      → st.bytes_until_read_sampling < 2 ^ 63
      → IsSeed st.rnd
      → 2 * (bytes_read - st.bytes_until_read_sampling) + (1 - (1 - st.rnd % 2 ^ 21)) < fuel
      → (st' : DbIter I D) × (sample_loop iterator record_read_sample fuel k bytes_read st
          ≡ some st')
        × SameBut st st'
  unfolding sample_loop
  sample_loop-SameBut zero k n st a b seed enough = absurd (omega arith)
  sample_loop-SameBut (suc fuel) k n st a b seed enough =
      elim (Bool-cases (ltb st.bytes_until_read_sampling n)) [
        | inl more ↦
            let period = random_next st.rnd % 2 ^ 21 in
            let later = period_later st.rnd seed in
            let (st', e, same) =
              sample_loop-SameBut fuel k n
                (record st {
                  db = record_read_sample st.db k;
                  rnd = random_next st.rnd;
                  bytes_until_read_sampling =
                      (st.bytes_until_read_sampling + random_next st.rnd % 2097152) % 2 ^ 64;
                })
                a (omega (arith, ltb→lt st.bytes_until_read_sampling n more, a, b))
                (IsSeed-random_next st.rnd seed)
                (omega (arith, later, ltb→lt st.bytes_until_read_sampling n more, enough, a)) in
            rw more (
              st',
              e,
              record {
                iter = same.iter;
                status = same.status;
                saved_key = same.saved_key;
                saved_value = same.saved_value;
                direction = same.direction;
                is_valid = same.is_valid;
                seeded = same.seeded;
                below = same.below;
              },
            )
        | inr done ↦ rw done (
          record st { bytes_until_read_sampling = st.bytes_until_read_sampling - n },
          refl,
          record {
            iter = refl;
            status = refl;
            saved_key = refl;
            saved_value = refl;
            direction = refl;
            is_valid = refl;
            seeded = seed;
            below = omega arith;
          },
        )
      ]

  -- ParseKey ends and gives the parsed key, where the iterator is at the encoding of one, and changes
  -- only the generator, the byte count and the database. The sequence number is below 2^56, the key
  -- and the value have fewer than 2^62 bytes, the byte count is below 2^63 and the seed is one that
  -- the generator may have; twice the bytes and two are enough rounds of the sampling loop.
  pub parse_key-SameBut :
      (st : DbIter I D) (ikey : ParsedInternalKey)
      → iterator.key st.iter ≡ append_internal_key [] ikey
      → ikey.sequence < 2 ^ 56
      → length (iterator.key st.iter) + length (iterator.value st.iter) < 2 ^ 62
      → st.bytes_until_read_sampling < 2 ^ 63
      → IsSeed st.rnd
      → (st' : DbIter I D) × (parse_key iterator record_read_sample st ≡ some (st', some ikey))
        × SameBut st st'
  unfolding parse_key
  parse_key-SameBut st ikey is_key fits small below seed =
      let n = (length (iterator.key st.iter) + length (iterator.value st.iter)) % 2 ^ 64 in
      let (st', sampled, same) =
        sample_loop-SameBut (2 * n + 2) (iterator.key st.iter) n st (omega (arith, small)) below
          seed (omega arith) in
      let parsed : parse_internal_key (iterator.key st.iter) ≡ some ikey =
        ap parse_internal_key is_key ∙ parse_internal_key-append ikey fits in
      (st', rw (sampled, parsed) refl, same)

pub IsSeed-random_seed : (s : ℕ) → IsSeed (random_seed s)
unfolding random_seed
IsSeed-random_seed s =
    let low : bit_and s 2147483647 ≡ s % 2 ^ 31 =
      ap (λ (t : ℕ). bit_and t 2147483647) (omega arith)
      ∙ bit_and-low 31 (s / 2 ^ 31) (s % 2 ^ 31) (omega arith) in
    (ground (arith, low), ground (arith, low))
