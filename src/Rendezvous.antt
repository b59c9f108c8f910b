-- ===== src/Rendezvous.antt =====
-- src/rendezvous: the server that tells clients of each other.
pub mod Wire
pub mod Registry
pub mod Client
pub mod Server
mod Tests
