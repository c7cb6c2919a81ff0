-- ===== src/Tools.antt =====
-- Tools and their execution: src/syndicateclaw/tools/.
pub mod Registry
pub mod Sandbox
pub mod Executor
pub mod Execute
pub mod Control
pub mod Passed
pub mod Returned
mod Tests
