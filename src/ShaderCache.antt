-- ===== src/ShaderCache.antt =====
-- The cache of compiled shaders: src/ShaderCache/ShaderCache.cpp.
mod Cache
mod Capacity
mod Tests
