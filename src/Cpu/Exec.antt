-- ===== src/Cpu/Exec.antt =====
-- The cases of ExecuteOne's switch, one function each.
pub mod Alu
pub mod Move
pub mod Control
pub mod Group
pub mod TwoByte
