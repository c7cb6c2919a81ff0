-- ===== src/Policy.antt =====
-- The policy engine: src/syndicateclaw/policy/.
pub mod Rules
pub mod Engine
pub mod Priority
pub mod Verdict
pub mod Outcomes
pub mod Removal
pub mod Conditions
mod Tests
