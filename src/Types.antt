-- ===== src/Types.antt =====
-- crates/gtp-types: identifiers, serial numbers, monotonic time, message classes and errors.
-- A newtype over an unsigned integer is that number; its width is a hypothesis where it matters.
pub mod Errors
pub mod Serial
pub mod Time
pub mod Semantics
