-- ===== src/Filesystem.antt =====
-- The virtual file system: src/Filesystem/Filesystem.cpp.
mod Paths
mod Mounts
mod Files
mod Normal
mod Table
mod Below
mod ReadOnly
mod Tests
