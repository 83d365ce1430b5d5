-- ===== src/Scheduler.antt =====
-- crates/gtp-scheduler: supersession of state updates and in-order delivery.
pub mod StateTable
pub mod OrderedGroup
pub mod Item
pub mod Tiers
