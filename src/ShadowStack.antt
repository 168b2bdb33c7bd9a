-- ===== src/ShadowStack.antt =====
-- The shadow stack of a worker, rdtool/src/stack.h, and the strands of spawns and syncs,
-- rdtool/src/shadow_stack.cpp.
pub mod Stack
pub mod Spawn
pub mod Callbacks
