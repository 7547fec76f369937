-- ===== src/Guest.antt =====
-- The guest's end: cpp/xpute/guest.
pub mod Handle
pub mod Memory
pub mod Frame
pub mod Ring
pub mod Stream
pub mod Section
pub mod Tick
pub mod Edge
pub mod Pass
