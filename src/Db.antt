-- ===== src/Db.antt =====
-- kv/db: the formats of the store.
pub mod Format
pub mod WriteBatch
pub mod VersionEdit
pub mod VersionSet
pub mod Log
pub mod OrderedSet
pub mod MemTable
pub mod SkipList
pub mod DbIter
