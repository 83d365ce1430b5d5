-- ===== src/Wire.antt =====
-- crates/gtp-wire: frames, packet headers and variable-length integers.
pub mod Frame
pub mod Reader
pub mod Utf8
pub mod Encode
pub mod Decode
pub mod RoundTrip
mod Examples
pub mod VarInt
pub mod Header
pub mod Codec
