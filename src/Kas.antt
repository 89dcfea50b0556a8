-- ===== src/Kas.antt =====
-- payout-kas/src: the engine that pays KAS in batches.
pub mod Confirm
pub mod World
pub mod Sign
pub mod Broadcast
pub mod Safety
pub mod Cycle
pub mod Engine
