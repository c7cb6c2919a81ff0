-- ===== src/Condition.antt =====
-- The conditions on the edges of a workflow: `_ConditionParser` of
-- src/syndicateclaw/orchestrator/engine.py.
pub mod Tokens
pub mod Parser
pub mod Syntax
pub mod Ends
pub mod Printed
pub mod RoundTrip
mod Tests
