-- ===== src/Types/Serial/Order.antt =====
-- Laws of the serial comparison and of the packing of state keys.
use gtp_rs.Base.{ℕ, ◌+◌, ◌*◌, ◌%◌, ◌^◌, ◌<◌, ◌≡◌, true, false, arith}
use gtp_rs.Base.{bit_and_mask, bit_or_sum, bit_or_comm, bit_or, ap, ◌∙◌, ◌-◌, ltb, ◌&&◌, ◌||◌}
use gtp_rs.Types.Serial.{sequence_is_newer_than, generation_is_newer_than, state_sequence_next}
use gtp_rs.Types.Serial.{StateKey, to_u48, from_u48}

-- The definition of RFC 1982, without a wrapping subtraction: for u32 `a` and `b`, `a` is newer than
-- `b` exactly when it is the greater one, by less than 2^31, or the less one, by more than 2^31.
pub sequence_newer_rfc1982 :
    (a b : ℕ)
    → a < 2 ^ 32
    → b < 2 ^ 32
    → sequence_is_newer_than a b
      ≡ ((ltb b a && ltb (a - b) (2 ^ 31)) || (ltb a b && ltb (2 ^ 31) (b - a)))
unfolding sequence_is_newer_than
sequence_newer_rfc1982 a b ha hb = ground arith

-- A sequence number advanced by `d`, for 0 < d < 2^31, is newer than the old one, also across the
-- wrap at 2^32.
pub sequence_newer_ahead :
    (a d : ℕ) → a < 2 ^ 32 → 0 < d → d < 2 ^ 31 → sequence_is_newer_than ((a + d) % 2 ^ 32) a ≡ true
unfolding sequence_is_newer_than
sequence_newer_ahead a d ha hd hl = ground arith

pub state_sequence_next-is_newer :
    (a : ℕ) → a < 2 ^ 32 → sequence_is_newer_than (state_sequence_next a) a ≡ true
unfolding state_sequence_next
state_sequence_next-is_newer a h = sequence_newer_ahead a 1 h (omega arith) (omega arith)

pub sequence_newer_irrefl : (a : ℕ) → sequence_is_newer_than a a ≡ false
unfolding sequence_is_newer_than
sequence_newer_irrefl a = ground arith

pub generation_newer_irrefl : (a : ℕ) → generation_is_newer_than a a ≡ false
unfolding generation_is_newer_than
generation_newer_irrefl a = ground arith

pub record IsStateKey (k : StateKey) : Type 0 where
  pub entity_fits : k.entity_id < 2 ^ 32
  pub type_fits : k.state_type < 2 ^ 16

to_u48_sum : (k : StateKey) → IsStateKey k → to_u48 k ≡ k.entity_id * 2 ^ 16 + k.state_type
unfolding to_u48
to_u48_sum k h =
    ap (λ (t : ℕ). bit_or t k.state_type) room
    ∙ bit_or_comm (k.entity_id * 2 ^ 16) k.state_type
    ∙ omega (arith, bit_or_sum 16 k.entity_id k.state_type h.type_fits)
  where
    room : k.entity_id * 2 ^ 16 % 2 ^ 64 ≡ k.entity_id * 2 ^ 16
    room = omega (arith, h.entity_fits)

pub to_u48-lt : (k : StateKey) → IsStateKey k → to_u48 k < 2 ^ 48
to_u48-lt k h = omega (arith, to_u48_sum k h)

-- A state key of a u32 entity and a u16 type survives the trip through its 48-bit form.
pub from_u48-to_u48 : (k : StateKey) → IsStateKey k → from_u48 (to_u48 k) ≡ k
unfolding from_u48
from_u48-to_u48 k h = ground (arith, to_u48_sum k h, bit_and_mask 16 (to_u48 k))
