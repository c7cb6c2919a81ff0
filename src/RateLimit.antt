-- ===== src/RateLimit.antt =====
-- The limits on requests: src/syndicateclaw/api/rate_limit.py, and the sorted sets of Redis that it
-- and the broadcasts of src/syndicateclaw/services/message_service.py count with.
pub mod Sets
pub mod TableSets
pub mod Middleware
pub mod Served
pub mod Windows
pub mod Keys
pub mod Bounded
pub mod Repeated
mod Tests
