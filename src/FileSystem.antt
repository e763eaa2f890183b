-- ===== src/FileSystem.antt =====
-- filesystem/FileSystem.h and filesystem/FileSystem.cpp.
pub mod Table
pub mod Pool
pub mod Boot
