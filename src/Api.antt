-- ===== src/Api.antt =====
-- api/src: the public API of the pool.
pub mod Claim
pub mod Money
