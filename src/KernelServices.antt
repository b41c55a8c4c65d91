-- ===== src/KernelServices.antt =====
-- source/chuckstation5/src/KernelServices/KernelServices.cpp: shared memory, message queues, and the
-- handles of read-write locks and condition variables.
pub mod State
pub mod Queue
pub mod Services
pub mod Order
pub mod Shared
mod Tests
