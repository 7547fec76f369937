-- ===== src/Codec.antt =====
-- kit/codec: the text forms of bytes.
pub mod Encoding
pub mod Utf8
