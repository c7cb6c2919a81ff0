-- ===== src/Approval.antt =====
-- The approval subsystem: src/syndicateclaw/approval/.
pub mod Authority
pub mod Row
pub mod Service
pub mod Decide
pub mod Expiry
pub mod Transitions
pub mod Lifecycle
pub mod Assignment
mod Tests
