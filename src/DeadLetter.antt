-- ===== src/DeadLetter.antt =====
-- The queue of the audit events that could not be stored: src/syndicateclaw/audit/dead_letter.py.
pub mod Queue
pub mod Retry
pub mod Exhaustion
pub mod GivesUp
pub mod Reemission
mod Tests
