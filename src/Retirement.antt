-- ===== src/Retirement.antt =====
-- crates/naome-memory-core/src/retirement.rs.
pub mod Types
pub mod Lottery
pub mod Similarity
pub mod Budget
pub mod Score
pub mod Consensus
pub mod Cohort
pub mod Semantic
pub mod PostState
pub mod Plan
