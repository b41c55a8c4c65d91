-- ===== src/CommandProcessor.antt =====
-- source/chuckstation5/src/CommandProcessor/CommandProcessor.cpp: building command lists and
-- processing their bytes.
pub mod Command
pub mod Process
pub mod Meaning
pub mod RoundTrip
pub mod Total
mod Tests
