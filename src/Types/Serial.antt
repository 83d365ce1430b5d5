-- ===== src/Types/Serial.antt =====
-- crates/gtp-types/src/identifiers.rs: counters, RFC 1982 serial comparison and `StateKey`.
pub mod Order
mod Examples
use gtp_rs.Base.{ℕ, ◌+◌, ◌-◌, ◌*◌, ◌/◌, ◌%◌, ◌^◌, Bool, ltb, ◌&&◌, bit_and, bit_or, min}

-- `wrapping_sub` of two u32.
abbrev pub wrapping_sub_u32 : ℕ → ℕ → ℕ
wrapping_sub_u32 a b = (a + 2 ^ 32 - b) % 2 ^ 32

-- `PacketNumber::next` and `MessageId::next`.
pub packet_number_next : ℕ → ℕ
packet_number_next n = (n + 1) % 2 ^ 64

-- `TransmissionId::next` saturates.
pub transmission_id_next : ℕ → ℕ
transmission_id_next n = min (n + 1) 255

unfoldable pub state_sequence_next : ℕ → ℕ
state_sequence_next n = (n + 1) % 2 ^ 32

-- `StateSequence::is_newer_than`.
unfoldable pub sequence_is_newer_than : ℕ → ℕ → Bool
sequence_is_newer_than a b = let diff = wrapping_sub_u32 a b in ltb 0 diff && ltb diff (2 ^ 31)

-- `GenerationId::is_newer_than`.
unfoldable pub generation_is_newer_than : ℕ → ℕ → Bool
generation_is_newer_than a b = let diff = wrapping_sub_u32 a b in ltb 0 diff && ltb diff (2 ^ 31)

pub record StateKey : Type 0 where
  pub entity_id : ℕ
  pub state_type : ℕ

unfoldable pub to_u48 : StateKey → ℕ
to_u48 k = bit_or (k.entity_id * 2 ^ 16 % 2 ^ 64) k.state_type

-- `(val >> 16) as u32` and `(val & 0xFFFF) as u16`.
unfoldable pub from_u48 : ℕ → StateKey
from_u48 v = record { entity_id = v / 2 ^ 16 % 2 ^ 32; state_type = bit_and v 0xffff % 2 ^ 16 }
