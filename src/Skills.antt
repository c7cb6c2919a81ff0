-- ===== src/Skills.antt =====
-- The skill router: src/syndicateclaw/runtime/router/.
pub mod Scoring
pub mod Router
pub mod Ranking
pub mod Verdict
mod Tests
