-- ===== src/Wire/Codec/Examples.antt =====
-- A packet of two frames, and the theorems there.
use gtp_rs.Base.{ℕ, ◌≤◌, ◌≡◌, refl, arith, none, some, List, [], ◌∷◌, length, drop, to_be_bytes}
use gtp_rs.Types.Errors.{Result, ok}
use gtp_rs.Wire.Frame.{Frame, ping, padding}
use gtp_rs.Wire.Encode.{encode, encode_frame}
use gtp_rs.Wire.Header.{PacketHeader, new_short, set_long_header, is_long_header}
use gtp_rs.Wire.Header
use gtp_rs.Wire.Codec.{new, append_frame, finish, new_iterator}
use gtp_rs.Wire.Codec.Termination.{items, AreOk, frames_total}
use gtp_rs.Wire.Codec.Building.{packet, append_all}
use gtp_rs.Wire.Codec.Packet.{packet-read_back}

abbrev header : PacketHeader
header = record {
  flags = 0;
  version = none;
  header_len = 24;
  connection_id = 5;
  packet_number = 9;
  timestamp_micros = 1000;
  payload_len = 0;
}

-- The 35 bytes of a ping and two bytes of padding behind the header.
abbrev datagram : List ℕ
datagram =
    0 ∷ 24 ∷ 0 ∷ 0 ∷ 0 ∷ 0 ∷ 0 ∷ 0 ∷ 0 ∷ 5 ∷ 0 ∷ 0 ∷ 0 ∷ 0 ∷ 0 ∷ 0 ∷ 0 ∷ 9 ∷ 0 ∷ 0 ∷ 3 ∷ 232 ∷ 0
    ∷ 12 ∷ 5 ∷ 0 ∷ 0 ∷ 0 ∷ 0 ∷ 0 ∷ 0 ∷ 0 ∷ 77 ∷ 0 ∷ 0 ∷ 0 ∷ []

packet-read_back_example :
    (Header.decode datagram ≡ ok (record header { flags = 0; payload_len = 12 }, 24))
    × (items 13 (new_iterator (drop 24 datagram)) ≡ some (ok (ping 77) ∷ ok (padding 2) ∷ []))
unfolding packet append_all new append_frame finish encode encode_frame Header.encode
    Header.tail_bytes is_long_header to_be_bytes
packet-read_back_example =
    packet-read_back 1200 header (ping 77 ∷ padding 2 ∷ []) datagram
      (record {
        flags_fit = omega arith;
        versioned = refl;
        len_fits = omega arith;
        id_fits = omega arith;
        number_fits = omega arith;
        time_fits = omega arith;
        payload_fits = omega arith;
      })
      (omega arith, refl, tt) refl

frames_total_example :
    (out : List (Result Frame)) × (items 4 (new_iterator (5 ∷ 0 ∷ 9 ∷ [])) ≡ some out)
    × (length out ≤ 3)
    × AreOk out
frames_total_example = frames_total (5 ∷ 0 ∷ 9 ∷ [])
