-- ===== src/KernelRuntime.antt =====
-- Kernel objects under handles, and ports: src/KernelRuntime/KernelRuntime.cpp.
mod Handles
mod Objects
pub mod Ports
mod Sharing
mod Fifo
mod Tests
