-- ===== src/Wire.antt =====
-- kit/wire: values and packets as bytes.
pub mod Tlv
pub mod Xtp
