-- ===== src/Table/RoundTrip.antt =====
-- The entries of a block, built, written to a file, read from it and iterated over.
use quas_db.Base.{ℕ, suc, ◌+◌, ◌^◌, ◌<◌, ◌≡◌, ap, ◌∙◌, Bool, some, List, ◌++◌, All, length}
use quas_db.Util.Crc32c.{Crc32c}
use quas_db.Util.Env.{WritableFile, RandomAccessFile, KeepsAll, GivesFrom}
use quas_db.Util.Status.{ok}
use quas_db.Table.BlockBuilder.{new_block_builder, finish}
use quas_db.Table.BlockBuilder.Build.{add_entries, FitsEntry}
use quas_db.Table.Block.Read.{read_entries, read_entries-finish}
use quas_db.Table.Format.{CompressionType, Snappy, read_block, RawWriter, write_raw_block}
use quas_db.Table.Format.RawBlock.{Packs, AtEnd, read_block-write_raw_block}

module _ {D : Type 0} (writable : WritableFile D) (crc : Crc32c) (contents : D → List ℕ)
    (keeps : KeepsAll writable contents) {F : Type 0} (file : RandomAccessFile F) (snappy : Snappy)
    (all : F → List ℕ) (gives : GivesFrom file all) where
  -- The entries that are added to a block builder come back in their order, with the status OK, from
  -- the block that ReadBlock reads where WriteRawBlock wrote the packed bytes of the finished one. An
  -- entry and the block have fewer than 2^32 bytes, and the file fewer than 2^64.
  pub read_entries-read_block :
      (interval : ℕ) (es : List (List ℕ × List ℕ)) (r : RawWriter D) (packed : List ℕ)
      (type : CompressionType) (f : F) (later : List ℕ) (verify_checksums : Bool)
      → All FitsEntry es
      → length (finish (add_entries interval new_block_builder es)).buffer < 2 ^ 32
      → Packs snappy type (finish (add_entries interval new_block_builder es)).buffer packed
      → AtEnd writable crc contents keeps r
      → length (contents r.dest) + length packed + 5 < 2 ^ 64
      → all f ≡ contents (write_raw_block writable crc r packed type).0.dest ++ later
      → read_entries
          (suc (length es))
          (read_block file crc snappy f verify_checksums
            (write_raw_block writable crc r packed type).1).0.contents
        ≡ some (es, ok)
  read_entries-read_block interval es r packed type f later verify_checksums fits small packs at
        room whole =
      let block = (finish (add_entries interval new_block_builder es)).buffer in
      ap (read_entries (suc (length es)))
        (read_block-write_raw_block writable crc contents keeps file snappy all gives r block packed
          type f later verify_checksums packs at room whole).0
      ∙ read_entries-finish interval es fits small
