-- ===== src/Tests/Table.antt =====
-- kv/table/block_builder.cpp and kv/table/block.cpp on a block of three entries.
use quas_db.Base.{
  ℕ, ◌^◌, ◌<◌, ◌≡◌, refl, some, List, [], ◌∷◌, All, length, ◌++◌, ◌/◌, true, take, drop, sym,
  append-nil, arith,
}
use quas_db.Util.Status.{ok, bytes}
use quas_db.Util.Env.{RandomAccessFile, GivesFrom}
use quas_db.Tests.Log.{summing, memory, memory_keeps}
use quas_db.Table.Format.{
  new_block_handle, Footer, put_footer, get_footer, Snappy, no_compression, snappy_compression,
  RawWriter, read_block, write_raw_block,
}
use quas_db.Table.Format.Handles.{get_footer-put_footer}
use quas_db.Table.Format.RawBlock.{read_block-write_raw_block}
use quas_db.Table.RoundTrip.{read_entries-read_block}
use quas_db.Util.Comparator.{bytewise_comparator}
use quas_db.Util.Slice.Lex.{slice_compare-IsOrder}
use quas_db.Table.BlockBuilder.{new_block_builder, finish}
use quas_db.Table.BlockBuilder.Build.{add_entries, FitsEntry}
use quas_db.Table.Block.{Iter, new_iter, seek_entry}
use quas_db.Table.Block.Read.{block, read_entries}
use quas_db.Table.Block.Seek.{IsRising, Lands, first_from, seek_entry-first_from}

abbrev three : List (List ℕ × List ℕ)
three = (bytes "ab", bytes "one") ∷ ((bytes "abc", bytes "two") ∷ ((bytes "b", []) ∷ []))

three_fit : All FitsEntry three
three_fit = (omega arith, (omega arith, (omega arith, tt)))

size_31 : length (finish (add_entries 2 new_block_builder three)).buffer ≡ 31
unfolding finish quas_db.Util.Coding.put_fixed32 quas_db.Util.Coding.encode_fixed32
    quas_db.Table.BlockBuilder.put_restarts add_entries quas_db.Table.BlockBuilder.add_entry
    new_block_builder quas_db.Table.BlockBuilder.put_entry quas_db.Util.Coding.put_varint32
    quas_db.Util.Coding.encode_varint32 quas_db.Table.BlockBuilder.shared_bytes
    quas_db.Util.Comparator.common_prefix_loop
size_31 = refl

three_small : length (finish (add_entries 2 new_block_builder three)).buffer < 2 ^ 32
three_small = omega (arith, size_31)

three-IsRising : IsRising bytewise_comparator three
unfolding quas_db.Util.Slice.slice_compare quas_db.Util.Slice.memcmp
three-IsRising = ((refl, (refl, tt)), ((refl, tt), (tt, tt)))

-- The search for a key between the second and the third entry.
seek_entry-first_from_example :
    (it' : Iter) × (seek_entry
        (block 2 three three_fit three_small)
        19
        2
        bytewise_comparator
        (bytes "ac")
        (new_iter (block 2 three three_fit three_small) 19 2)
      ≡ some it')
    × (it'.status ≡ ok)
    × Lands bytewise_comparator
        (block 2 three three_fit three_small)
        19
        2
        (some (bytes "b", []))
        it'
unfolding finish quas_db.Util.Coding.put_fixed32 quas_db.Util.Coding.encode_fixed32
    quas_db.Table.BlockBuilder.put_restarts add_entries quas_db.Table.BlockBuilder.add_entry
    new_block_builder quas_db.Table.BlockBuilder.put_entry quas_db.Util.Coding.put_varint32
    quas_db.Util.Coding.encode_varint32 quas_db.Table.BlockBuilder.shared_bytes
    quas_db.Util.Comparator.common_prefix_loop first_from quas_db.Util.Slice.slice_compare new_iter
seek_entry-first_from_example =
    seek_entry-first_from bytewise_comparator 2 three three_fit three_small (bytes "ac")
      slice_compare-IsOrder three-IsRising (new_iter (block 2 three three_fit three_small) 19 2)

abbrev two_handles : Footer
two_handles = record {
  metaindex_handle = record { offset = 300; size = 8 };
  index_handle = record { offset = 313; size = 70000 };
}

get_footer-put_footer_example :
    get_footer
      (record { metaindex_handle = new_block_handle; index_handle = new_block_handle })
      (put_footer [] two_handles ++ bytes "x")
    ≡ (two_handles, bytes "x", ok)
get_footer-put_footer_example =
    get_footer-put_footer
      (record { metaindex_handle = new_block_handle; index_handle = new_block_handle }) two_handles
      (bytes "x") (omega arith, omega arith) (omega arith, omega arith)

-- A file in memory, and a packing that puts the byte 0 in front of each byte.
abbrev read_at : RandomAccessFile (List ℕ)
read_at = record { read = λ f offset n. (take n (drop offset f), true, ok) }

read_at_gives : GivesFrom read_at (λ f. f)
read_at_gives = record { read_ok = λ f offset n. refl; read_bytes = λ f offset n. refl }

unfoldable unpad : List ℕ → List ℕ
unpad [] = []
unpad (pad ∷ []) = []
unpad (pad ∷ b ∷ s) = b ∷ unpad s

abbrev padding_snappy : Snappy
padding_snappy = record {
  get_uncompressed_length = λ s. some (length s / 2);
  raw_uncompress = λ s. some (unpad s);
}

abbrev writer : RawWriter (List ℕ)
writer = record { dest = bytes "head"; offset = 4; status = ok }

abbrev padded : List ℕ
padded = 0 ∷ 97 ∷ 0 ∷ 98 ∷ []

read_block-write_raw_block_example :
    ((read_block read_at summing padding_snappy
        ((write_raw_block memory summing writer padded snappy_compression).0.dest ++ bytes "tail")
        true
        (write_raw_block memory summing writer padded snappy_compression).1).0.contents
      ≡ bytes "ab")
    × ((read_block read_at summing padding_snappy
          ((write_raw_block memory summing writer padded snappy_compression).0.dest ++ bytes "tail")
          true
          (write_raw_block memory summing writer padded snappy_compression).1).1
        ≡ ok)
unfolding unpad
read_block-write_raw_block_example =
    read_block-write_raw_block memory summing (λ d. d) memory_keeps read_at padding_snappy (λ f. f)
      read_at_gives writer (bytes "ab") padded snappy_compression
      ((write_raw_block memory summing writer padded snappy_compression).0.dest ++ bytes "tail")
      (bytes "tail") true (refl, refl) refl (omega arith) refl

read_entries-read_block_example :
    read_entries 4
      (read_block read_at summing padding_snappy
        (write_raw_block memory summing writer
          (finish (add_entries 2 new_block_builder three)).buffer
          no_compression).0.dest
        true
        (write_raw_block memory summing writer
          (finish (add_entries 2 new_block_builder three)).buffer
          no_compression).1).0.contents
    ≡ some (three, ok)
read_entries-read_block_example =
    read_entries-read_block memory summing (λ d. d) memory_keeps read_at padding_snappy (λ f. f)
      read_at_gives 2 three writer (finish (add_entries 2 new_block_builder three)).buffer
      no_compression
      (write_raw_block memory summing writer (finish (add_entries 2 new_block_builder three)).buffer
        no_compression).0.dest
      [] true three_fit three_small refl refl (omega (arith, size_31))
      (sym (
        append-nil
          (write_raw_block memory summing writer
            (finish (add_entries 2 new_block_builder three)).buffer no_compression).0.dest))
