-- ===== src/ModuleRegistry.antt =====
-- The table of loaded modules: src/ModuleRegistry/ModuleRegistry.cpp.
mod Table
mod Count
mod Tests
