-- ===== src/Util.antt =====
-- kv/util and kv/include: the codecs, the byte order and the helpers below the store.
pub mod Coding
pub mod Order
pub mod Slice
pub mod Comparator
pub mod Status
pub mod Logging
pub mod Hash
pub mod Crc32c
pub mod Env
pub mod Random
pub mod Bloom
pub mod Iterator
