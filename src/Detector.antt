-- ===== src/Detector.antt =====
-- The race detector, rdtool: what is kept of the accesses to a grain of memory, and where.
pub mod Access
pub mod Slot
pub mod Shadow
pub mod Memory
