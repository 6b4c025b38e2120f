-- ===== src/Db/Log/RoundTrip/Position.antt =====
-- Where a reader stands in what is left of a log, and what reading one physical record does to it.
use quas_db.Base.{
  ℕ, suc, ◌+◌, ◌-◌, ◌%◌, ◌^◌, ◌≤◌, ◌<◌, ◌≡◌, refl, sym, ap, ◌∙◌, Bool, true, false, ◌||◌, ltb, ◌==◌,
  some, List, [], ◌++◌, length, take, drop, replicate, take_front, drop_front, length-append,
  length-take, length-replicate, append_assoc, arith, take_over, drop_over, min, take-nil, drop-nil,
  Bool-cases, inl, inr,
}
use quas_db.Util.Status.{Status}
use quas_db.Util.Crc32c.{Crc32c}
use quas_db.Util.Env.{SequentialFile, GivesAll}
use quas_db.Db.Log.{RecordType, record_code, block_size, header_size}
use quas_db.Db.Log.Writer.{physical_header}
use quas_db.Db.Log.Reader.{Reader, refill, physical_loop, eof_type}
use quas_db.Db.Log.RoundTrip.Frame.{
  framed, parse_physical-framed, length-framed, length-physical_header,
}

module _ {F R : Type 0} (crc : Crc32c) (source : SequentialFile F) (corrupt : R → ℕ → Status → R)
    (checksum : Bool) (unknown_type : ℕ → List ℕ) (rest : F → List ℕ)
    (gives : GivesAll source rest) where
  -- `stream` is what is left, from the offset `off` in the reader's block on.
  pub record At (off : ℕ) (stream : List ℕ) (r : Reader F R) : Type 0 where
    pub in_block : off ≤ block_size
    pub buffered : r.buffer ≡ take (block_size - off) stream
    pub ahead : rest r.file ≡ drop (block_size - off) stream
    pub at_eof : r.eof ≡ ltb (off + length stream) block_size
    pub synced : r.resyncing ≡ false

  module _ (off : ℕ) (t : RecordType) (payload tail : List ℕ)
      (fits : off + header_size + length payload ≤ block_size) where
    length-unit : length (physical_header crc t payload ++ payload) ≡ header_size + length payload
    length-unit = omega (
      arith,
      length-append (physical_header crc t payload) payload,
      length-physical_header crc t payload,
    )

    take-framed :
        take (block_size - off) (framed crc t payload tail)
        ≡ framed crc t payload (take (block_size - (off + header_size + length payload)) tail)
    take-framed =
        ap (take (block_size - off))
          (sym (append_assoc (physical_header crc t payload) payload tail))
        ∙ take_over (block_size - off) (physical_header crc t payload ++ payload) tail
            (omega (arith, length-unit))
        ∙ append_assoc (physical_header crc t payload) payload _
        ∙ ap (λ (k : ℕ). framed crc t payload (take k tail)) (omega (arith, length-unit))

    drop-framed :
        drop (block_size - off) (framed crc t payload tail)
        ≡ drop (block_size - (off + header_size + length payload)) tail
    drop-framed =
        ap (drop (block_size - off))
          (sym (append_assoc (physical_header crc t payload) payload tail))
        ∙ drop_over (block_size - off) (physical_header crc t payload ++ payload) tail
            (omega (arith, length-unit))
        ∙ ap (λ (k : ℕ). drop k tail) (omega (arith, length-unit))

  pub physical_loop-framed :
      (n off : ℕ) (t : RecordType) (payload tail : List ℕ) (r : Reader F R)
      → off + header_size + length payload ≤ block_size
      → (record_code t == 0) ≡ false
      → At off (framed crc t payload tail) r
      → (r' : Reader F R) × (physical_loop crc source corrupt checksum 0 unknown_type (suc n) r
          ≡ some (r', record_code t, payload))
        × At (off + header_size + length payload) tail r'
        × (r'.reported ≡ r.reported)
  unfolding physical_loop
  physical_loop-framed n off t payload tail r h nonzero a = (
    record r { buffer = left },
    rw
        (
          has_header,
          parse_physical-framed crc source corrupt checksum unknown_type r t payload left
              (omega arith) nonzero buffer_is,
        )
        refl,
    record {
      in_block = h;
      buffered = refl;
      ahead = a.ahead ∙ drop-framed off t payload tail h;
      at_eof =
          a.at_eof
          ∙ ap (λ (k : ℕ). ltb k block_size) (omega (arith, length-framed crc t payload tail));
      synced = a.synced;
    },
    refl,
  )
    where
      left : List ℕ
      left = take (block_size - (off + header_size + length payload)) tail

      buffer_is : r.buffer ≡ framed crc t payload left
      buffer_is = a.buffered ∙ take-framed off t payload tail h

      has_header : ltb (length r.buffer) header_size ≡ false
      has_header = rw buffer_is (ground (arith, length-framed crc t payload left))

  -- The reader after a read that succeeds.
  abbrev refilled : Reader F R → Reader F R
  refilled r = record r {
    file = (source.read r.file block_size).0;
    buffer = (source.read r.file block_size).1;
    end_of_buffer_offset =
        (r.end_of_buffer_offset + length (source.read r.file block_size).1) % 2 ^ 64;
    eof = r.eof || ltb (length (source.read r.file block_size).1) block_size;
  }

  refill_ok :
      (r : Reader F R) → refill crc source corrupt checksum 0 unknown_type r ≡ (refilled r, true)
  unfolding refill
  refill_ok r = rw (gives.read_ok r.file block_size) refl

  refilled-At :
      (r : Reader F R) (stream : List ℕ)
      → rest r.file ≡ stream
      → r.eof ≡ false
      → r.resyncing ≡ false
      → At 0 stream (refilled r)
  refilled-At r stream next more synced = record {
    in_block = omega arith;
    buffered = gives.read_bytes r.file block_size ∙ ap (take block_size) next;
    ahead = gives.read_rest r.file block_size ∙ ap (drop block_size) next;
    at_eof =
        rw (more, gives.read_bytes r.file block_size, next, length-take block_size stream)
          (below_min (length stream));
    synced = synced;
  }
    where
      below_min : (n : ℕ) → ltb (min block_size n) block_size ≡ ltb (0 + n) block_size
      below_min n = ground arith

  refill_step :
      (n : ℕ) (r : Reader F R)
      → ltb (length r.buffer) header_size ≡ true
      → r.eof ≡ false
      → physical_loop crc source corrupt checksum 0 unknown_type (suc n) r
        ≡ physical_loop crc source corrupt checksum 0 unknown_type n (refilled r)
  unfolding physical_loop
  refill_step n r short more = rw (refill_ok r, short) (simp (more))

  eof_step :
      (n : ℕ) (r : Reader F R)
      → ltb (length r.buffer) header_size ≡ true
      → r.eof ≡ true
      → physical_loop crc source corrupt checksum 0 unknown_type (suc n) r
        ≡ some (record r { buffer = [] }, eof_type, [])
  unfolding physical_loop
  eof_step n r short done = rw (short, done) refl

  -- A trailer that is too short for a header is passed over, with a read of the next block.
  pub physical_loop-trailer :
      (n off : ℕ) (stream : List ℕ) (r : Reader F R)
      → block_size < off + header_size
      → header_size ≤ length stream
      → At off (replicate (block_size - off) 0 ++ stream) r
      → (r' : Reader F R) × (physical_loop crc source corrupt checksum 0 unknown_type (suc n) r
          ≡ physical_loop crc source corrupt checksum 0 unknown_type n r')
        × At 0 stream r'
        × (r'.reported ≡ r.reported)
  physical_loop-trailer n off stream r h long a =
      (refilled r, refill_step n r short more, refilled-At r stream next more a.synced, refl)
    where
      pad : List ℕ
      pad = replicate (block_size - off) 0

      length-pad : length pad ≡ block_size - off
      length-pad = length-replicate {A = ℕ} (block_size - off) 0

      next : rest r.file ≡ stream
      next = a.ahead ∙ drop_front (block_size - off) pad stream (sym length-pad)

      short : ltb (length r.buffer) header_size ≡ true
      short =
          rw (a.buffered, take_front (block_size - off) pad stream (sym length-pad), length-pad)
            (ground arith)

      more : r.eof ≡ false
      more = a.at_eof ∙ ground (arith, length-append pad stream, length-pad, a.in_block)

  -- At the end of the log the reader says so.
  pub physical_loop-end :
      (off : ℕ) (r : Reader F R)
      → At off [] r
      → (r' : Reader F R) × (physical_loop crc source corrupt checksum 0 unknown_type 2 r
          ≡ some (r', eof_type, []))
        × (r'.reported ≡ r.reported)
        × (r'.resyncing ≡ false)
  physical_loop-end off r a = elim (Bool-cases r.eof) [
    | inl done ↦ (
      record r { buffer = [] },
      eof_step 1 r (short (block_size - off) r a.buffered) done,
      refl,
      a.synced,
    )
    | inr more ↦
        let next = refilled-At r [] (a.ahead ∙ drop-nil (block_size - off)) more a.synced in
        (
          record (refilled r) { buffer = [] },
          refill_step 1 r (short (block_size - off) r a.buffered) more
              ∙ eof_step 0 (refilled r) (short block_size (refilled r) next.buffered) next.at_eof,
          refl,
          a.synced,
        )
  ]
    where
      short :
          (k : ℕ) (q : Reader F R) → q.buffer ≡ take k [] → ltb (length q.buffer) header_size ≡ true
      short k q e = rw (e, take-nil {A = ℕ} k) refl
