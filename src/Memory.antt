-- ===== src/Memory.antt =====
-- source/chuckstation5/src/Memory/Memory.cpp and include/ChuckStation5/Memory/Memory.h: the tracked
-- allocator, as built for systems other than Windows.
pub mod State
pub mod Virtual
pub mod Heap
pub mod Query
pub mod Accounting
pub mod Committed
pub mod Lookup
mod Tests
