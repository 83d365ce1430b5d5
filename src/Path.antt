-- ===== src/Path.antt =====
-- crates/gtp-path: connection lifecycle, anti-amplification, path validation and stateless cookies.
pub mod StateMachine
pub mod AntiAmplification
pub mod PathValidator
pub mod StatelessToken
