-- ===== src/Wire/Header/Examples.antt =====
-- A long header in front of two payload bytes.
use gtp_rs.Base.{ℕ, ◌≡◌, refl, arith, some, List, [], ◌∷◌, ◌++◌, to_be_bytes}
use gtp_rs.Types.Errors.{ok}
use gtp_rs.Wire.Header.{PacketHeader, gtp_v1_1, is_long_header, tail_bytes, encode, decode}
use gtp_rs.Wire.Header.RoundTrip.{decode-encode_header}

abbrev long_header : PacketHeader
long_header = record {
  flags = 0x80;
  version = some gtp_v1_1;
  header_len = 28;
  connection_id = 0x0102030405060708;
  packet_number = 9;
  timestamp_micros = 1000;
  payload_len = 2;
}

abbrev header_bytes : List ℕ
header_bytes =
    0x80 ∷ 0 ∷ 1 ∷ 0 ∷ 1 ∷ 28 ∷ 1 ∷ 2 ∷ 3 ∷ 4 ∷ 5 ∷ 6 ∷ 7 ∷ 8 ∷ 0 ∷ 0 ∷ 0 ∷ 0 ∷ 0 ∷ 0 ∷ 0 ∷ 9 ∷ 0
    ∷ 0 ∷ 3 ∷ 232 ∷ 0 ∷ 2 ∷ []

decode-encode_header_example : decode (header_bytes ++ (6 ∷ 7 ∷ [])) ≡ ok (long_header, 28)
unfolding encode is_long_header tail_bytes to_be_bytes
decode-encode_header_example =
    decode-encode_header long_header 1200 header_bytes (6 ∷ 7 ∷ [])
      (record {
        flags_fit = omega arith;
        versioned = omega arith;
        len_fits = omega arith;
        id_fits = omega arith;
        number_fits = omega arith;
        time_fits = omega arith;
        payload_fits = omega arith;
      })
      refl (omega arith) (omega arith)
