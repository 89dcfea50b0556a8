-- ===== src/Bridge.antt =====
-- bridge/src: the stratum bridge between the miners and the node.
pub mod Jobs
pub mod Guard
