-- ===== src/RuntimeEvents.antt =====
-- The event bus: src/RuntimeEvents/RuntimeEvents.cpp.
pub mod State
pub mod Publish
mod Watchdog
mod History
pub mod Unanswered
mod Tests
