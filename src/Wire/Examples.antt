-- ===== src/Wire/Examples.antt =====
-- The round trip on a data frame.
use gtp_rs.Base.{ℕ, ◌≡◌, refl, arith, List, [], ◌∷◌, ◌++◌, length, to_be_bytes}
use gtp_rs.Types.Errors.{ok}
use gtp_rs.Types.Serial.{to_u48}
use gtp_rs.Wire.Frame.{Frame, data_frame}
use gtp_rs.Wire.Encode.{encode, encode_data, data_body, encode_frame}
use gtp_rs.Wire.Decode.{decode}
use gtp_rs.Wire.RoundTrip.{decode-encode}

abbrev update : Frame
update = data_frame (record {
  message_id = 7;
  state_key = record { entity_id = 0x1234; state_type = 5 };
  sequence = 2;
  generation = 1;
  deadline_ms = 50;
  payload = 1 ∷ 2 ∷ [];
})

-- The 29 bytes of that frame.
abbrev bytes : List ℕ
bytes =
    2 ∷ 0 ∷ 0 ∷ 0 ∷ 0 ∷ 0 ∷ 0 ∷ 0 ∷ 7 ∷ 0 ∷ 0 ∷ 0x12 ∷ 0x34 ∷ 0 ∷ 5 ∷ 0 ∷ 0 ∷ 0 ∷ 2 ∷ 0 ∷ 0 ∷ 0 ∷ 1
    ∷ 0 ∷ 50 ∷ 0 ∷ 2 ∷ 1 ∷ 2 ∷ []

decode-encode_example : decode (bytes ++ (5 ∷ 6 ∷ [])) ≡ ok (update, length bytes)
unfolding encode encode_frame encode_data data_body to_u48 to_be_bytes
decode-encode_example =
    decode-encode update 1200 bytes (5 ∷ 6 ∷ [])
      (
        omega arith,
        record { entity_fits = omega arith; type_fits = omega arith },
        omega arith,
        omega arith,
        omega arith,
      )
      tt refl
