-- ===== src/Inference.antt =====
-- Choosing a model provider: src/syndicateclaw/inference/.
pub mod PolicyCache
pub mod CacheLaws
pub mod Circuit
pub mod CircuitLaws
pub mod Router
pub mod Route
pub mod Selection
pub mod Decision
pub mod Keys
pub mod Guarantee
pub mod Idempotency
pub mod Binding
pub mod Once
pub mod Polling
mod Tests
mod StoreTests
