-- ===== src/Table/Format/RawBlock.antt =====
-- A block written to a file and read back.
use quas_db.Base.{
  ℕ, ◌+◌, ◌%◌, ◌^◌, ◌<◌, ◌≡◌, refl, sym, ap, ◌∙◌, suc, Bool, true, ◌==◌, some, List, [], ◌∷◌, ◌++◌,
  append_assoc, append-nil, length, length-append, take, drop, take_all, take_front, drop_front,
  take-append, drop-append, get_or, arith,
}
use quas_db.Util.Coding.{encode_fixed32, decode_fixed32}
use quas_db.Util.Coding.Fixed.{decode_fixed32-encode_fixed32, length-encode_fixed32}
use quas_db.Util.Crc32c.{Crc32c, crc_value, mask, unmask}
use quas_db.Util.Crc32c.Mask.{unmask-mask, mask-fits}
use quas_db.Util.Env.{WritableFile, RandomAccessFile, KeepsAll, GivesFrom}
use quas_db.Util.Status.{Status, ok}
use quas_db.Table.Format.{
  BlockHandle, BlockContents, CompressionType, no_compression, snappy_compression, compression_code,
  Snappy, unpack_block, read_block, RawWriter, trailer, write_raw_block,
}

get_or-middle : (xs : List ℕ) (y : ℕ) (ys : List ℕ) → get_or (xs ++ (y ∷ ys)) (length xs) 0 ≡ y
get_or-middle [] y ys = refl
get_or-middle (x ∷ xs) y ys = get_or-middle xs y ys

module _ {F : Type 0} (file : RandomAccessFile F) (crc : Crc32c) (snappy : Snappy) where
  read_block-found :
      (f : F) (verify_checksums : Bool) (handle : BlockHandle) (block : List ℕ) (code : ℕ)
      (contents : List ℕ) (in_buffer : Bool)
      → file.read f handle.offset ((handle.size + 5) % 2 ^ 64) ≡ (contents, in_buffer, ok)
      → (length contents == (handle.size + 5) % 2 ^ 64) ≡ true
      → (crc_value crc (take (handle.size + 1) contents)
          == unmask (decode_fixed32 (drop (handle.size + 1) contents)))
        ≡ true
      → take handle.size contents ≡ block
      → get_or contents handle.size 0 ≡ code
      → read_block file crc snappy f verify_checksums handle
        ≡ unpack_block snappy block code in_buffer
  unfolding read_block
  read_block-found f verify_checksums handle block code contents in_buffer r l c b k =
      simp (r, l, c, b, k) (ground arith)

-- The bytes of a block and its type are what the uncompressed block was packed into.
abbrev pub Packs : Snappy → CompressionType → (raw block : List ℕ) → Type 0
Packs snappy no_compression raw block = block ≡ raw
Packs snappy snappy_compression raw block =
    (snappy.get_uncompressed_length block ≡ some (length raw))
    × (snappy.raw_uncompress block ≡ some raw)

unpack_block-Packs :
    (snappy : Snappy) (type : CompressionType) (raw block : List ℕ) (in_buffer : Bool)
    → Packs snappy type raw block
    → ((unpack_block snappy block (compression_code type) in_buffer).0.contents ≡ raw)
      × ((unpack_block snappy block (compression_code type) in_buffer).1 ≡ ok)
unfolding unpack_block
unpack_block-Packs snappy no_compression raw block in_buffer p = (p, refl)
unpack_block-Packs snappy snappy_compression raw block in_buffer (l, u) =
    rw (l, u) (take_all (length raw) raw (omega arith), refl)

module _ {D : Type 0} (writable : WritableFile D) (crc : Crc32c) (contents : D → List ℕ)
    (keeps : KeepsAll writable contents) where
  -- The writer knows where the file ends.
  abbrev pub AtEnd : RawWriter D → Type 0
  AtEnd r = r.offset ≡ length (contents r.dest)

  length-trailer :
      (block : List ℕ) (type : CompressionType) → length (trailer writable crc block type) ≡ 5
  length-trailer block type =
      ap suc (
        length-encode_fixed32
          (mask (crc.extend (crc_value crc block) (compression_code type ∷ []))))

  -- What WriteRawBlock leaves: the block and its trailer behind what the file held, the handle of the
  -- block, and a writer that again knows where the file ends.
  pub write_raw_block-appends :
      (r : RawWriter D) (block : List ℕ) (type : CompressionType)
      → AtEnd r
      → length (contents r.dest) + length block + 5 < 2 ^ 64
      → (contents (write_raw_block writable crc r block type).0.dest
          ≡ contents r.dest ++ (block ++ trailer writable crc block type))
        × ((write_raw_block writable crc r block type).0.status ≡ ok)
        × AtEnd (write_raw_block writable crc r block type).0
        × ((write_raw_block writable crc r block type).1
            ≡ record { offset = length (contents r.dest); size = length block })
  unfolding write_raw_block
  write_raw_block-appends r block type at small =
      let t = trailer writable crc block type in
      let d1 = (writable.append r.dest block).0 in
      let ok1 = keeps.append_ok r.dest block in
      let ok2 = keeps.append_ok d1 t in
      let all : contents (writable.append d1 t).0 ≡ contents r.dest ++ (block ++ t) =
        keeps.append_contents d1 t
        ∙ ap (λ (s : List ℕ). s ++ t) (keeps.append_contents r.dest block)
        ∙ append_assoc (contents r.dest) block t in
      rw (write_raw_block, ok1, ok2)
        (
          all,
          refl,
          omega (
            arith,
            at,
            ap length all,
            length-append (contents r.dest) (block ++ t),
            length-append block t,
            length-trailer block type,
            small,
          ),
          λ i. record { offset = at i; size = length block },
        )

  module _ {F : Type 0} (file : RandomAccessFile F) (snappy : Snappy) (all : F → List ℕ)
      (gives : GivesFrom file all) where
    -- A block that is written at the end of a file and read back by the handle that the writer gives
    -- has the bytes that it was packed from, with the checksum verified or not, whatever is written
    -- behind it. The file keeps what is appended and gives what it holds; its size stays below 2^64.
    pub read_block-write_raw_block :
        (r : RawWriter D) (raw block : List ℕ) (type : CompressionType) (f : F) (later : List ℕ)
        (verify_checksums : Bool)
        → Packs snappy type raw block
        → AtEnd r
        → length (contents r.dest) + length block + 5 < 2 ^ 64
        → all f ≡ contents (write_raw_block writable crc r block type).0.dest ++ later
        → ((read_block file crc snappy f verify_checksums
              (write_raw_block writable crc r block type).1).0.contents
            ≡ raw)
          × ((read_block file crc snappy f verify_checksums
                (write_raw_block writable crc r block type).1).1
              ≡ ok)
    read_block-write_raw_block r raw block type f later verify_checksums packs at small whole =
        let (appended, fine, end, is_handle) = write_raw_block-appends r block type at small in
        let t = trailer writable crc block type in
        let before = contents r.dest in
        let handle : BlockHandle = record { offset = length before; size = length block } in
        let result = file.read f (length before) ((length block + 5) % 2 ^ 64) in
        let code = compression_code type in
        let sum = mask (crc.extend (crc_value crc block) (code ∷ [])) in
        let split : all f ≡ before ++ ((block ++ t) ++ later) =
          whole
          ∙ ap (λ (s : List ℕ). s ++ later) appended
          ∙ append_assoc before (block ++ t) later in
        let size : (length block + 5) % 2 ^ 64 ≡ length (block ++ t) =
          omega (arith, length-append block t, length-trailer block type, small) in
        let is_bytes : result.0 ≡ block ++ t =
          gives.read_bytes f (length before) ((length block + 5) % 2 ^ 64)
          ∙ ap (λ (s : List ℕ). take ((length block + 5) % 2 ^ 64) (drop (length before) s)) split
          ∙ ap (λ (s : List ℕ). take ((length block + 5) % 2 ^ 64) s)
              (drop-append before ((block ++ t) ++ later))
          ∙ take_front ((length block + 5) % 2 ^ 64) (block ++ t) later size in
        let reads : result ≡ (block ++ t, result.1, ok) = λ i.
          (is_bytes i, result.1, gives.read_ok f (length before) ((length block + 5) % 2 ^ 64) i) in
        let typed : block ++ t ≡ (block ++ (code ∷ [])) ++ encode_fixed32 sum =
          sym (append_assoc block (code ∷ []) (encode_fixed32 sum)) in
        let long : length block + 1 ≡ length (block ++ (code ∷ [])) =
          omega (arith, length-append block (code ∷ [])) in
        let checked : crc_value crc (take (length block + 1) (block ++ t))
            ≡ unmask (decode_fixed32 (drop (length block + 1) (block ++ t))) =
          ap (λ (s : List ℕ). crc_value crc (take (length block + 1) s)) typed
          ∙ ap (crc_value crc)
              (take_front (length block + 1) (block ++ (code ∷ [])) (encode_fixed32 sum) long)
          ∙ sym (crc.extend_append 0 block (code ∷ []))
          ∙ sym (
              unmask-mask (crc.extend (crc_value crc block) (code ∷ []))
                (crc.extend_fits (crc_value crc block) (code ∷ [])))
          ∙ sym (
              ap (λ (s : List ℕ). unmask (decode_fixed32 (drop (length block + 1) s))) typed
              ∙ ap (λ (s : List ℕ). unmask (decode_fixed32 s))
                  (drop_front (length block + 1) (block ++ (code ∷ [])) (encode_fixed32 sum) long
                    ∙ sym (append-nil (encode_fixed32 sum)))
              ∙ ap unmask (
                  decode_fixed32-encode_fixed32 sum []
                    (mask-fits (crc.extend (crc_value crc block) (code ∷ []))))) in
        let found =
          ap (λ (h : BlockHandle). read_block file crc snappy f verify_checksums h) is_handle
          ∙ read_block-found file crc snappy f verify_checksums handle block code (block ++ t)
              result.1 reads (ground (arith, size)) (ground (arith, checked)) (take-append block t)
              (get_or-middle block code (encode_fixed32 sum)) in
        let (same, good) = unpack_block-Packs snappy type raw block result.1 packs in
        (
          ap (λ (x : BlockContents × Status). x.0.contents) found ∙ same,
          ap (λ (x : BlockContents × Status). x.1) found ∙ good,
        )
