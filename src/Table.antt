-- ===== src/Table.antt =====
-- kv/table: the blocks of sorted entries that tables are made of.
pub mod BlockBuilder
pub mod Block
pub mod Format
pub mod RoundTrip
