-- ===== src/Domain.antt =====
-- crates/katpool-domain: the validated types that the other crates exchange.
pub mod Address
