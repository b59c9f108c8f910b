-- ===== src/Generic.antt =====
-- include/club/generic: the containers of the transport.
pub mod CyclicQueue
pub mod SortedSet
pub mod SortedMap
