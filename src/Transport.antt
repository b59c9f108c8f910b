-- ===== src/Transport.antt =====
-- include/club/transport: the reliable and unreliable message transport over UDP.
pub mod Word
pub mod AckSet
pub mod PartInfo
pub mod Message
pub mod PendingMessage
pub mod Socket
pub mod Transfer
pub mod TransmitQueue
