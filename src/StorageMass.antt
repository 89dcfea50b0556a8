-- ===== src/StorageMass.antt =====
-- crates/katpool-storagemass/src: masses and fees of transactions, the planner of payout batches,
-- and the planner of consolidations.
pub mod Mass
pub mod Fee
pub mod Planner
pub mod Consolidation
