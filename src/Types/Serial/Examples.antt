-- ===== src/Types/Serial/Examples.antt =====
-- Runs of the serial comparison, and its laws at concrete numbers.
use gtp_rs.Base.{◌-◌, ◌^◌, ◌≡◌, true, refl, arith, ltb, ◌&&◌, ◌||◌}
use gtp_rs.Types.Serial.{sequence_is_newer_than, StateKey}
use gtp_rs.Types.Serial.Order.{sequence_newer_rfc1982}

wraps : sequence_is_newer_than 5 (2 ^ 32 - 6) ≡ true
unfolding sequence_is_newer_than
wraps = refl

sequence_newer_rfc1982_example : sequence_is_newer_than 5 (2 ^ 32 - 6) ≡ (
    (ltb (2 ^ 32 - 6) 5 && ltb (5 - (2 ^ 32 - 6)) (2 ^ 31))
    || (ltb 5 (2 ^ 32 - 6) && ltb (2 ^ 31) (2 ^ 32 - 6 - 5)))
sequence_newer_rfc1982_example = sequence_newer_rfc1982 5 (2 ^ 32 - 6) (omega arith) (omega arith)

abbrev sample_key : StateKey
sample_key = record { entity_id = 0x12345678; state_type = 0x9abc }
