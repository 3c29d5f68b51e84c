-- ===== src/Codec.antt =====
-- pkg/codec: order-preserving encodings of byte strings and numbers.
pub mod Bytes
pub mod Number
pub mod Varint
