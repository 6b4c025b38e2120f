-- ===== src/Db/Log.antt =====
-- kv/db/log_format.h: the log is a sequence of blocks, a block a sequence of physical records, each a
-- header (checksum, length, type) with a fragment behind it. A trailer too short for a header is zeros.
pub mod Writer
pub mod Reader
pub mod RoundTrip
pub mod Total
use quas_db.Base.{ℕ, List}

pub data RecordType : Type 0 where
  zero_type full_type first_type middle_type last_type : RecordType

abbrev pub record_code : RecordType → ℕ
record_code zero_type = 0
record_code full_type = 1
record_code first_type = 2
record_code middle_type = 3
record_code last_type = 4

abbrev pub block_size : ℕ
block_size = 32768

abbrev pub header_size : ℕ
header_size = 7
