-- ===== src/Club.antt =====
-- src/club: the bookkeeping of the group's messages.
pub mod MessageId
pub mod SeenMessages
pub mod Message
pub mod Graph
pub mod Routing
pub mod LogEntry
pub mod Log
pub mod Hub
