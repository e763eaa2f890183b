-- ===== src/Memory.antt =====
-- memory/MemManager.h, memory/MemManager.cpp and memory/MemConstants.h.
pub mod Bits
pub mod PageMap
pub mod Heap
