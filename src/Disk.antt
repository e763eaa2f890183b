-- ===== src/Disk.antt =====
-- The directory drivers: reads and writes of a drive through its cache.
pub mod Cache
pub mod Drive
pub mod Coherent
pub mod Replaced
pub mod Stored
pub mod Written
pub mod Breaks
pub mod Write
pub mod Loaded
pub mod Read
mod Tests
