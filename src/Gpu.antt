-- ===== src/Gpu.antt =====
-- gpu: a guest's GPU calls written as a stream's records.
pub mod Enum
pub mod Op
pub mod Descriptor
pub mod Record
pub mod Parts
pub mod Call
pub mod Objects
mod Tests
