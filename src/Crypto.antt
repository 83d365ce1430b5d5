-- ===== src/Crypto.antt =====
-- crates/gtp-crypto: the replay window.
pub mod Replay
