-- ===== src/Db/Log/RoundTrip.antt =====
-- What the log writer writes, the log reader reads.
pub mod Frame
pub mod Position
pub mod Fragment
pub mod Record
pub mod Whole
