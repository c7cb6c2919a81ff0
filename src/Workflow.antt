-- ===== src/Workflow.antt =====
-- The workflow engine: src/syndicateclaw/orchestrator/engine.py.
pub mod Graph
pub mod Node
pub mod Engine
pub mod Distinct
pub mod Bounds
pub mod Edges
pub mod Completion
pub mod Attempts
pub mod Cancellation
pub mod Resume
pub mod OneShot
pub mod Resumes
mod Tests
mod ResumeTests
