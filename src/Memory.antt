-- ===== src/Memory.antt =====
-- `MemoryService` of src/syndicateclaw/memory/service.py: the records in the database and in Redis.
pub mod Record
pub mod Service
pub mod Granted
pub mod Deletion
pub mod Cached
pub mod Lineage
pub mod Ancestry
pub mod Closure
pub mod Trust
pub mod Decay
pub mod Conflicts
mod TrustTests
mod Tests
