-- ===== src/Om.antt =====
-- The order-maintenance structure of rdtool/src/om.
pub mod Label
pub mod Store
pub mod Chain
pub mod View
pub mod Blist
pub mod Split
pub mod Top
pub mod Relabel
pub mod Tree
pub mod Order
pub mod Insert
pub mod Verify
