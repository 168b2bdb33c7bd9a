-- ===== src/Tests.antt =====
-- Runs of the models at concrete inputs.
pub mod Lists
pub mod Tops
pub mod Frames
pub mod Locks
pub mod Runtime
pub mod Detector
pub mod Pipeline
pub mod Runs
pub mod Scheduler
pub mod Stealing
pub mod ShadowStack
