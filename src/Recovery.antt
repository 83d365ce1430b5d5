-- ===== src/Recovery.antt =====
-- crates/gtp-recovery: received-packet tracking, RTT estimation and loss detection.
pub mod Rtt
pub mod Owd
pub mod AckTracker
pub mod LossDetector
pub mod AckFrame
