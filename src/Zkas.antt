-- ===== src/Zkas.antt =====
-- payout-zkas: the engine that pays every miner's balance with one shielded transaction each.
pub mod Window
pub mod Confirm
pub mod Db
pub mod World
pub mod Broadcast
pub mod Plan
pub mod Cycle
pub mod Tick
pub mod Latch
pub mod Spend
pub mod Safety
