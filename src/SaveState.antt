-- ===== src/SaveState.antt =====
-- Save states: src/SaveState/SaveState.cpp.
mod Checksum
mod Crc
mod Blob
mod MemoryMap
mod Slots
mod Header
mod Restore
mod Pages
mod Cycle
mod Bitwise
mod Tests
