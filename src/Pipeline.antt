-- ===== src/Pipeline.antt =====
-- The strands of a pipeline, rdtool/include/piper_rd.h, and its lists, rdtool/src/list.cpp.
pub mod OmOrder
pub mod Items
pub mod Iterations
pub mod Left
pub mod Rows
pub mod Run
pub mod Strands
