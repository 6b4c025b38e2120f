-- ===== src/Db/Log/Reader.antt =====
-- kv/db/log_reader.cpp: physical records are read block by block and joined again.
use quas_db.Base.{
  ℕ, zero, suc, ◌+◌, ◌-◌, ◌*◌, ◌%◌, ◌^◌, bit_or, Bool, true, false, not, ◌&&◌, ◌||◌, ltb, leb, ◌==◌,
  if◌then◌else◌, Option, none, some, List, [], ◌∷◌, ◌++◌, length, take, drop, get_or,
}
use quas_db.Util.Coding.{decode_fixed32}
use quas_db.Util.Status.{Status, failed, corruption, bytes, is_ok}
use quas_db.Util.Crc32c.{Crc32c, crc_value, unmask}
use quas_db.Util.Env.{SequentialFile}
use quas_db.Db.Log.{block_size, header_size}

abbrev pub eof_type : ℕ
eof_type = 5

abbrev pub bad_record : ℕ
bad_record = 6

pub record Reader (F : Type 0) (R : Type 0) : Type 0 where
  pub file : F
  pub reported : R
  pub buffer : List ℕ
  pub eof : Bool
  pub last_record_offset : ℕ
  pub end_of_buffer_offset : ℕ
  pub resyncing : Bool

-- The local state of ReadRecord: the fragments so far, and where the first of them started.
pub record Pending : Type 0 where
  pub in_fragmented_record : Bool
  pub scratch : List ℕ
  pub prospective_record_offset : ℕ

abbrev pub no_pending : Pending
no_pending = record { in_fragmented_record = false; scratch = []; prospective_record_offset = 0 }

-- What a physical record leads to: ReadRecord returns, or goes on.
pub data Round (F R : Type 0) : Type 0 where
  returns : Reader F R → Option (List ℕ) → Round F R
  goes_on : Reader F R → Pending → Round F R

abbrev pub is_empty : List ℕ → Bool
is_empty [] = true
is_empty (b ∷ bs) = false

-- The fields of the seven bytes of a header. The type is a signed `char`.
abbrev pub header_length : List ℕ → ℕ
header_length buffer = bit_or (get_or buffer 4 0 % 256) (get_or buffer 5 0 % 256 * 2 ^ 8)

abbrev pub header_type : List ℕ → ℕ
header_type buffer = let t = get_or buffer 6 0 in if ltb t 128 then t else t + 2 ^ 32 - 256

-- a - b as a uint64.
abbrev pub sub64 : ℕ → ℕ → ℕ
sub64 a b = (a + (2 ^ 64 - b % 2 ^ 64)) % 2 ^ 64

-- A null reporter is one that leaves its state alone. `unknown_type` is the text that snprintf makes
-- of a record type.
module _ {F R : Type 0} (crc : Crc32c) (source : SequentialFile F) (corrupt : R → ℕ → Status → R)
    (checksum : Bool) (initial_offset : ℕ) (unknown_type : ℕ → List ℕ) where
  unfoldable pub open_reader : F → R → Reader F R
  open_reader f r = record {
    file = f;
    reported = r;
    buffer = [];
    eof = false;
    last_record_offset = 0;
    end_of_buffer_offset = 0;
    resyncing = ltb 0 initial_offset;
  }

  unfoldable pub report_drop : Reader F R → ℕ → Status → Reader F R
  report_drop r drop_size reason =
      if leb initial_offset (sub64 (sub64 r.end_of_buffer_offset (length r.buffer)) drop_size)
      then record r { reported = corrupt r.reported drop_size reason }
      else r

  abbrev pub report_corruption : Reader F R → ℕ → List ℕ → Reader F R
  report_corruption r drop_size reason = report_drop r drop_size (failed corruption reason [])

  unfoldable pub skip_to_initial_block : Reader F R → Reader F R × Bool
  skip_to_initial_block r =
      let offset_in_block = initial_offset % block_size in
      let start = initial_offset - offset_in_block in
      let location =
        if ltb (block_size - 6) offset_in_block then (start + block_size) % 2 ^ 64 else start in
      let at_block = record r { end_of_buffer_offset = location } in
      let (f, s) = source.skip r.file location in
      let skipped = record at_block { file = f } in
      if ltb 0 location
      then (if is_ok s then (skipped, true) else (report_drop skipped location s, false))
      else (at_block, true)

  -- The physical record at the start of a buffer that has room for a header.
  unfoldable pub parse_physical : Reader F R → Reader F R × ℕ × List ℕ
  parse_physical r =
      let size = header_length r.buffer in
      let type = header_type r.buffer in
      let cleared = record r { buffer = [] } in
      let behind = drop (header_size + size) r.buffer in
      let taken = record r { buffer = behind } in
      if ltb (length r.buffer) (header_size + size)
      then (if not r.eof
          then (
            report_corruption cleared (length r.buffer) (bytes "bad record length"),
            bad_record,
            [],
          )
          else (cleared, eof_type, []))
      else if (type == 0) && (size == 0)
      then (cleared, bad_record, [])
      else if checksum
          && not (
              crc_value crc (take (1 + size) (drop 6 r.buffer)) == unmask (decode_fixed32 r.buffer))
      then (report_corruption cleared (length r.buffer) (bytes "checksum mismatch"), bad_record, [])
      else if ltb (sub64 (sub64 (sub64 r.end_of_buffer_offset (length behind)) header_size) size)
          initial_offset
      then (taken, bad_record, [])
      else (taken, type, take size (drop header_size r.buffer))

  -- A full read, where the buffer had only a trailer; the failure of the file ends the reading.
  unfoldable pub refill : Reader F R → Reader F R × Bool
  refill r =
      let (f, read, s) = source.read r.file block_size in
      let filled = record r {
        file = f;
        buffer = read;
        end_of_buffer_offset = (r.end_of_buffer_offset + length read) % 2 ^ 64;
      } in
      if is_ok s
      then (record filled { eof = r.eof || ltb (length read) block_size }, true)
      else (record (report_drop (record filled { buffer = [] }) block_size s) { eof = true }, false)

  -- The loop of ReadPhysicalRecord; after one read it returns. `none` means that the fuel ran out.
  unfoldable pub physical_loop : (fuel : ℕ) → Reader F R → Option (Reader F R × ℕ × List ℕ)
  physical_loop zero r = none
  physical_loop (suc fuel) r =
      let (filled, read_ok) = refill r in
      let again = physical_loop fuel filled in
      if ltb (length r.buffer) header_size
      then (if not r.eof
          then (if read_ok then again else some (filled, eof_type, []))
          else some (record r { buffer = [] }, eof_type, []))
      else some (parse_physical r)

  unfoldable pub read_physical_record : Reader F R → Option (Reader F R × ℕ × List ℕ)
  read_physical_record r = physical_loop 2 r

  abbrev pub report_partial : Reader F R → Pending → List ℕ → Reader F R
  report_partial r p reason =
      if p.in_fragmented_record && not (is_empty p.scratch)
      then report_corruption r (length p.scratch) reason
      else r

  unfoldable pub dispatch : Reader F R → ℕ → List ℕ → Pending → Round F R
  dispatch r type fragment p =
      let offset =
        sub64 (sub64 (sub64 r.end_of_buffer_offset (length r.buffer)) header_size)
          (length fragment) in
      let joined = p.scratch ++ fragment in
      if type == 1
      then returns
          (record (report_partial r p (bytes "partial record without end(1)")) {
            last_record_offset = offset;
          })
          (some fragment)
      else if type == 2
      then goes_on (report_partial r p (bytes "partial record without end(2)")) (record {
        in_fragmented_record = true;
        scratch = fragment;
        prospective_record_offset = offset;
      })
      else if type == 3
      then (if p.in_fragmented_record
          then goes_on r (record p { scratch = joined })
          else goes_on
              (report_corruption r (length fragment)
                (bytes "missing start of fragmented record(1)"))
              p)
      else if type == 4
      then (if p.in_fragmented_record
          then returns (record r { last_record_offset = p.prospective_record_offset }) (some joined)
          else goes_on
              (report_corruption r (length fragment)
                (bytes "missing start of fragmented record(2)"))
              p)
      else if type == eof_type
      then returns r none
      else if type == bad_record
      then (if p.in_fragmented_record
          then goes_on (report_corruption r (length p.scratch) (bytes "error in middle of record"))
              (record p { in_fragmented_record = false; scratch = [] })
          else goes_on r p)
      else goes_on
          (report_corruption r
            (length fragment + (if p.in_fragmented_record then length p.scratch else 0))
            (unknown_type type))
          (record p { in_fragmented_record = false; scratch = [] })

  -- After a seek, the middle and the end of a record that started before are passed over.
  unfoldable pub resync : Reader F R → ℕ → List ℕ → Pending → Round F R
  resync r type fragment p =
      let synced = record r { resyncing = false } in
      if r.resyncing
      then (if type == 3
          then goes_on r p
          else if type == 4
          then goes_on synced p
          else dispatch synced type fragment p)
      else dispatch r type fragment p

  -- The loop of ReadRecord; `none` means that the fuel ran out.
  unfoldable pub read_loop :
      (fuel : ℕ) → Reader F R → Pending → Option (Reader F R × Option (List ℕ))
  read_loop zero r p = none
  read_loop (suc fuel) r p = elim (read_physical_record r) [
    | none ↦ none
    | some (r', type, fragment) ↦ elim (resync r' type fragment p) [
      | returns r'' result ↦ some (r'', result)
      | goes_on r'' p' ↦ read_loop fuel r'' p'
    ]
  ]

  unfoldable pub read_record : (fuel : ℕ) → Reader F R → Option (Reader F R × Option (List ℕ))
  read_record fuel r =
      let (skipped, done) = skip_to_initial_block r in
      if ltb r.last_record_offset initial_offset
      then (if done then read_loop fuel skipped no_pending else some (skipped, none))
      else read_loop fuel r no_pending
