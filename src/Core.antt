-- ===== src/Core.antt =====
-- crates/gtp-core: the connection engine and its parts.
pub mod Fragment
pub mod Delivered
pub mod Control
pub mod KeyPhase
