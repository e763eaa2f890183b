-- ===== src/Io.antt =====
-- The directory io: the tables of open descriptors.
pub mod Table
pub mod Redirect
pub mod File
mod Tests
