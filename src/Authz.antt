-- ===== src/Authz.antt =====
-- Role-based access control: src/syndicateclaw/authz/evaluator.py.
pub mod Scope
pub mod Tables
pub mod Cache
pub mod Evaluator
pub mod Grants
pub mod Containment
pub mod CacheHit
pub mod RoleChain
mod Tests
