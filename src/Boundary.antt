-- ===== src/Boundary.antt =====
-- The runtime authority boundary: src/syndicateclaw/runtime_boundary/.
pub mod Chain
pub mod Evidence
pub mod Durable
pub mod Refinement
pub mod Authority
pub mod Authorize
pub mod Gate
pub mod Opens
pub mod Permits
pub mod Replay
pub mod SingleUse
pub mod Torn
mod Tests
