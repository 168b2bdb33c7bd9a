-- ===== src/Mutex.antt =====
-- The locks of batched-piper/runtime: worker_mutex.c and spin_mutex.c.
pub mod Worker
pub mod Exclusion
pub mod Spin
pub mod SpinExclusion
