-- ===== src/Table/Format.antt =====
-- kv/table/format.h and kv/table/format.cpp: the handle of a block, the footer of a table, and a block
-- as a file stores it; and TableBuilder::WriteRawBlock of kv/table/table_builder.cpp.
pub mod Handles
pub mod RawBlock
use quas_db.Base.{
  ℕ, ◌+◌, ◌-◌, ◌*◌, ◌/◌, ◌%◌, ◌^◌, Bool, true, false, not, ◌&&◌, ◌==◌, if◌then◌else◌, Option, none,
  some, List, [], ◌∷◌, ◌++◌, length, take, drop, replicate, get_or, bit_or,
}
use quas_db.Util.Coding.{put_varint64, get_varint64, put_fixed32, encode_fixed32, decode_fixed32}
use quas_db.Util.Crc32c.{Crc32c, crc_value, mask, unmask}
use quas_db.Util.Env.{WritableFile, RandomAccessFile}
use quas_db.Util.Status.{Status, ok, is_ok, failed, corruption, bytes}

pub record BlockHandle : Type 0 where
  pub offset : ℕ
  pub size : ℕ

abbrev pub new_block_handle : BlockHandle
new_block_handle = record { offset = 2 ^ 64 - 1; size = 2 ^ 64 - 1 }

unfoldable pub put_handle : List ℕ → BlockHandle → List ℕ
put_handle dst h = put_varint64 (put_varint64 dst h.offset) h.size

-- DecodeFrom, with the handle and the input that it leaves.
unfoldable pub get_handle : BlockHandle → List ℕ → BlockHandle × List ℕ × Status
get_handle h input = elim (get_varint64 input) [
  | none ↦ (h, input, failed corruption (bytes "bad block handle") [])
  | some (offset, rest) ↦ elim (get_varint64 rest) [
    | none ↦ (record h { offset = offset }, rest, failed corruption (bytes "bad block handle") [])
    | some (size, rest') ↦ (record { offset = offset; size = size }, rest', ok)
  ]
]

pub record Footer : Type 0 where
  pub metaindex_handle : BlockHandle
  pub index_handle : BlockHandle

abbrev pub max_encoded_length : ℕ
max_encoded_length = 20

abbrev pub footer_length : ℕ
footer_length = 48

abbrev pub table_magic_number : ℕ
table_magic_number = 0xdb4775248b80fb57

-- std::string::resize.
abbrev resize : ℕ → List ℕ → List ℕ
resize n s = take n s ++ replicate (n - length s) 0

unfoldable pub put_footer : List ℕ → Footer → List ℕ
put_footer dst f =
    put_fixed32
      (put_fixed32
        (resize (2 * max_encoded_length)
          (put_handle (put_handle dst f.metaindex_handle) f.index_handle))
        (table_magic_number % 2 ^ 32))
      (table_magic_number / 2 ^ 32)

-- DecodeFrom; the source reads an input of at least `footer_length` bytes.
unfoldable pub get_footer : Footer → List ℕ → Footer × List ℕ × Status
get_footer f input =
    let magic_lo = decode_fixed32 (drop (footer_length - 8) input) in
    let magic_hi = decode_fixed32 (drop (footer_length - 4) input) in
    let magic = bit_or (magic_hi * 2 ^ 32 % 2 ^ 64) magic_lo in
    let (metaindex, input1, result1) = get_handle f.metaindex_handle input in
    let (index, input2, result2) = get_handle f.index_handle input1 in
    if not (magic == table_magic_number)
    then (f, input, failed corruption (bytes "not an sstable (bad magic number)") [])
    else if not (is_ok result1)
    then (record f { metaindex_handle = metaindex }, input1, result1)
    else if not (is_ok result2)
    then (record { metaindex_handle = metaindex; index_handle = index }, input2, result2)
    else (
      record { metaindex_handle = metaindex; index_handle = index },
      drop footer_length input,
      result2,
    )

abbrev pub block_trailer_size : ℕ
block_trailer_size = 5

pub data CompressionType : Type 0 where
  no_compression snappy_compression : CompressionType

abbrev pub compression_code : CompressionType → ℕ
compression_code no_compression = 0
compression_code snappy_compression = 1

pub record BlockContents : Type 0 where
  pub contents : List ℕ
  pub cachable : Bool
  pub heap_allocated : Bool

abbrev no_contents : BlockContents
no_contents = record { contents = []; cachable = false; heap_allocated = false }

-- The functions of snappy that read a block; `none` for the return value false.
pub record Snappy : Type 0 where
  pub get_uncompressed_length : List ℕ → Option ℕ
  pub raw_uncompress : List ℕ → Option (List ℕ)

-- What the switch of ReadBlock does with the block, which stands in front of its type.
unfoldable pub unpack_block : Snappy → List ℕ → ℕ → Bool → BlockContents × Status
unpack_block snappy block type in_buffer =
    let corrupted : BlockContents × Status =
      (no_contents, failed corruption (bytes "corrupted compressed block contents") []) in
    if type == compression_code no_compression
    then (record { contents = block; cachable = in_buffer; heap_allocated = in_buffer }, ok)
    else if type == compression_code snappy_compression
    then elim (snappy.get_uncompressed_length block) [
      | none ↦ corrupted
      | some ulength ↦ elim (snappy.raw_uncompress block) [
        | none ↦ corrupted
        | some ubuf ↦
            (record { contents = take ulength ubuf; cachable = true; heap_allocated = true }, ok)
      ]
    ]
    else (no_contents, failed corruption (bytes "bad block type") [])

module _ {F : Type 0} (file : RandomAccessFile F) (crc : Crc32c) (snappy : Snappy) where
  unfoldable pub read_block : F → (verify_checksums : Bool) → BlockHandle → BlockContents × Status
  read_block f verify_checksums handle =
      let n = handle.size in
      let (contents, in_buffer, s) =
        file.read f handle.offset ((n + block_trailer_size) % 2 ^ 64) in
      let stored = unmask (decode_fixed32 (drop (n + 1) contents)) in
      let actual = crc_value crc (take (n + 1) contents) in
      if not (is_ok s)
      then (no_contents, s)
      else if not (length contents == (n + block_trailer_size) % 2 ^ 64)
      then (no_contents, failed corruption (bytes "truncated block read") [])
      else if verify_checksums && not (actual == stored)
      then (no_contents, failed corruption (bytes "block checksum mismatch") [])
      else unpack_block snappy (take n contents) (get_or contents n 0) in_buffer

-- The part of TableBuilder::Rep that writes.
pub record RawWriter (D : Type 0) : Type 0 where
  pub dest : D
  pub offset : ℕ
  pub status : Status

module _ {D : Type 0} (file : WritableFile D) (crc : Crc32c) where
  abbrev pub trailer : List ℕ → CompressionType → List ℕ
  trailer block_contents type =
      compression_code type
      ∷ encode_fixed32
          (mask (crc.extend (crc_value crc block_contents) (compression_code type ∷ [])))

  unfoldable pub write_raw_block :
      RawWriter D → List ℕ → CompressionType → RawWriter D × BlockHandle
  write_raw_block r block_contents type =
      let handle : BlockHandle = record { offset = r.offset; size = length block_contents } in
      let (dest1, status1) = file.append r.dest block_contents in
      let (dest2, status2) = file.append dest1 (trailer block_contents type) in
      if not (is_ok status1)
      then (record r { dest = dest1; status = status1 }, handle)
      else if not (is_ok status2)
      then (record r { dest = dest2; status = status2 }, handle)
      else (
        record {
          dest = dest2;
          offset = (r.offset + (length block_contents + block_trailer_size)) % 2 ^ 64;
          status = status2;
        },
        handle,
      )
