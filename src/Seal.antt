-- ===== src/Seal.antt =====
-- crates/naome-memory-core/src/seal.rs.
pub mod Types
pub mod Input
pub mod Prepared
pub mod Routes
pub mod Partition
pub mod Episode
pub mod Totals
pub mod Stream
