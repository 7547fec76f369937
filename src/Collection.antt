-- ===== src/Collection.antt =====
-- kit/collection: containers over memory that the caller owns.
pub mod Deque
pub mod Arena
pub mod Inline
pub mod Heap
