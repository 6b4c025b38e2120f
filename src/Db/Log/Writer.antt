-- ===== src/Db/Log/Writer.antt =====
-- kv/db/log_writer.cpp: a record goes out in fragments that fit the blocks.
use quas_db.Base.{
  ℕ, zero, suc, ◌+◌, ◌-◌, ◌/◌, ◌%◌, ◌^◌, bit_and, Bool, true, false, not, ◌&&◌, ltb, ◌==◌,
  if◌then◌else◌, Option, none, some, List, [], ◌∷◌, ◌++◌, length, take, drop, replicate,
}
use quas_db.Util.Coding.{encode_fixed32}
use quas_db.Util.Status.{Status, is_ok}
use quas_db.Util.Crc32c.{Crc32c, crc_value, mask}
use quas_db.Util.Env.{WritableFile}
use quas_db.Db.Log.{
  RecordType, full_type, first_type, middle_type, last_type, record_code, block_size, header_size,
}

pub record Writer (D : Type 0) : Type 0 where
  pub dest : D
  pub block_offset : ℕ

abbrev pub fragment_type : Bool → Bool → RecordType
fragment_type begin end =
    if begin && end
    then full_type
    else if begin
    then first_type
    else if end
    then last_type
    else middle_type

abbrev pub is_empty : List ℕ → Bool
is_empty [] = true
is_empty (b ∷ bs) = false

-- The checksum of the record type, as InitTypeCrc computes it beforehand, and of the payload.
unfoldable pub physical_header : Crc32c → RecordType → List ℕ → List ℕ
physical_header crc t payload =
    let sum = crc.extend (crc_value crc (record_code t ∷ [])) payload in
    encode_fixed32 (mask sum)
    ++ (bit_and (length payload) 0xff ∷ length payload / 2 ^ 8 % 256 ∷ record_code t ∷ [])

module _ {D : Type 0} (crc : Crc32c) (file : WritableFile D) where
  -- A writer on a file of the given length.
  unfoldable pub open_writer : D → (dest_length : ℕ) → Writer D
  open_writer dest dest_length = record { dest = dest; block_offset = dest_length % block_size }

  -- Append the header, the payload, and flush, as far as each succeeds.
  unfoldable pub write_physical : D → List ℕ → List ℕ → D × Status
  write_physical d head payload =
      let (d1, s1) = file.append d head in
      let (d2, s2) = file.append d1 payload in
      if is_ok s1 then (if is_ok s2 then file.flush d2 else (d2, s2)) else (d1, s1)

  unfoldable pub emit_physical_record : Writer D → RecordType → List ℕ → Writer D × Status
  emit_physical_record w t payload =
      let (d, s) = write_physical w.dest (physical_header crc t payload) payload in
      (record { dest = d; block_offset = w.block_offset + header_size + length payload }, s)

  -- The start of a round: a trailer without room for a header is filled. The source does not look at
  -- the status of this append.
  unfoldable pub switch_block : Writer D → Writer D
  switch_block w =
      let leftover = block_size - w.block_offset in
      if ltb leftover header_size
      then record {
        dest = if ltb 0 leftover then (file.append w.dest (replicate leftover 0)).0 else w.dest;
        block_offset = 0;
      }
      else w

  -- One round on the bytes that are left, and the bytes that remain.
  unfoldable pub add_fragment : Bool → Writer D → List ℕ → (Writer D × Status) × List ℕ
  add_fragment begin w0 left =
      let w = switch_block w0 in
      let avail = block_size - w.block_offset - header_size in
      let fragment_length = if ltb (length left) avail then length left else avail in
      let end = length left == fragment_length in
      (
        emit_physical_record w (fragment_type begin end) (take fragment_length left),
        drop fragment_length left,
      )

  -- The do-while loop, on fuel; `none` means that the fuel ran out.
  unfoldable pub add_loop : (fuel : ℕ) → Bool → Writer D → List ℕ → Option (Writer D × Status)
  add_loop zero begin w left = none
  add_loop (suc fuel) begin w left =
      let ((w', s), rest) = add_fragment begin w left in
      let more = add_loop fuel false w' rest in
      if is_ok s && not (is_empty rest) then more else some (w', s)

  -- Each round but the first takes a byte at least.
  unfoldable pub add_record : Writer D → List ℕ → Option (Writer D × Status)
  add_record w slice = add_loop (length slice + 2) true w slice
