-- ===== src/Messages.antt =====
-- The messages between agents: src/syndicateclaw/services/message_service.py and
-- src/syndicateclaw/messaging/router.py.
pub mod Router
pub mod Service
pub mod Sent
pub mod Hops
pub mod Relays
mod Tests
