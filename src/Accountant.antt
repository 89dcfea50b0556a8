-- ===== src/Accountant.antt =====
-- The accountant crate: vesting of rewards, payout plans, the fee model and the allocation engine.
pub mod Vesting
pub mod Payout
pub mod Fee
pub mod Db
pub mod Window
pub mod Allocation
pub mod Engine
