-- ===== src/Cpu.antt =====
-- source/chuckstation5/src/Cpu/Cpu.cpp and include/ChuckStation5/Cpu/Cpu.h: the x86-64 interpreter.
pub mod Word
pub mod State
pub mod Flags
pub mod Mul
pub mod Compare
pub mod Guest
pub mod Fetch
pub mod Exec
pub mod Step
pub mod Breakpoints
pub mod Stack
pub mod Bounds
pub mod Loop
pub mod Tables
mod Tests
