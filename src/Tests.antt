-- ===== src/Tests.antt =====
-- Concrete runs of the modelled code, and the theorems at concrete inputs.
mod Util
mod Db
mod Http
mod VersionSet
mod SkipList
mod Bloom
mod Log
mod MemTable
mod Table
mod DbIter
