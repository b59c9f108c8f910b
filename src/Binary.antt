-- ===== src/Binary.antt =====
-- include/binary: the byte encoder and decoder that every message of the program goes through.
pub mod Encoder
pub mod Decoder
pub mod DynamicEncoder
pub mod Codec
pub mod Serialize
