-- ===== src/Wire/Header.antt =====
-- crates/gtp-wire/src/header.rs: packet headers. The buffer of `encode` is its length; the result is
-- the bytes written at its start.
pub mod RoundTrip
mod Examples
use gtp_rs.Base.{
  ℕ, ◌+◌, ◌*◌, ◌/◌, ◌^◌, ltb, ◌==◌, ◌||◌, not, if◌then◌else◌, Bool, true, false, bit_and, bit_or,
  Option, none, some, List, [], ◌∷◌, ◌++◌, length, take, drop, to_be_bytes, from_be_bytes,
}
use gtp_rs.Types.Errors.{Result, ok, err, buffer_too_short, invalid_packet}

abbrev pub gtp_v1_1 : ℕ
gtp_v1_1 = 0x00010001

abbrev pub min_common_header_len : ℕ
min_common_header_len = 24

abbrev pub min_long_header_len : ℕ
min_long_header_len = 28

-- The flags are the byte; `! 0x80` is 0x7f.
unfoldable pub is_long_header : ℕ → Bool
is_long_header flags = not (bit_and flags 0x80 == 0)

unfoldable pub set_long_header : ℕ → Bool → ℕ
set_long_header flags is_long = if is_long then bit_or flags 0x80 else bit_and flags 0x7f

unfoldable pub key_phase : ℕ → Bool
key_phase flags = not (bit_and flags 0x40 == 0)

unfoldable pub set_key_phase : ℕ → Bool → ℕ
set_key_phase flags phase = if phase then bit_or flags 0x40 else bit_and flags 0xbf

unfoldable pub has_ack : ℕ → Bool
has_ack flags = not (bit_and flags 0x20 == 0)

unfoldable pub set_ack_present : ℕ → Bool → ℕ
set_ack_present flags ack_present = if ack_present then bit_or flags 0x20 else bit_and flags 0xdf

unfoldable pub ecn_bits : ℕ → ℕ
ecn_bits flags = bit_and flags 0x18 / 2 ^ 3

unfoldable pub set_ecn_bits : ℕ → ℕ → ℕ
set_ecn_bits flags ecn = bit_or (bit_and flags 0xe7) (bit_and ecn 0x03 * 2 ^ 3)

pub record PacketHeader : Type 0 where
  pub flags : ℕ
  pub version : Option ℕ
  pub header_len : ℕ
  pub connection_id : ℕ
  pub packet_number : ℕ
  pub timestamp_micros : ℕ
  pub payload_len : ℕ

unfoldable pub new_short : ℕ → ℕ → ℕ → ℕ → PacketHeader
new_short connection_id packet_number timestamp_micros payload_len = record {
  flags = set_long_header 0 false;
  version = none;
  header_len = min_common_header_len;
  connection_id = connection_id;
  packet_number = packet_number;
  timestamp_micros = timestamp_micros;
  payload_len = payload_len;
}

unfoldable pub new_long : ℕ → ℕ → ℕ → ℕ → ℕ → PacketHeader
new_long version connection_id packet_number timestamp_micros payload_len = record {
  flags = set_long_header 0 true;
  version = some version;
  header_len = min_long_header_len;
  connection_id = connection_id;
  packet_number = packet_number;
  timestamp_micros = timestamp_micros;
  payload_len = payload_len;
}

abbrev pub min_len : ℕ → ℕ
min_len flags = if is_long_header flags then min_long_header_len else min_common_header_len

abbrev pub version_or_default : Option ℕ → ℕ
version_or_default none = gtp_v1_1
version_or_default (some version) = version

-- From the length byte on.
unfoldable pub tail_bytes : PacketHeader → List ℕ
tail_bytes h =
    to_be_bytes 1 h.header_len
    ++ (to_be_bytes 8 h.connection_id
        ++ (to_be_bytes 8 h.packet_number
            ++ (to_be_bytes 4 h.timestamp_micros ++ to_be_bytes 2 h.payload_len)))

unfoldable pub encode : PacketHeader → ℕ → Result (List ℕ)
encode h capacity =
    if ltb capacity (min_len h.flags)
    then err buffer_too_short
    else if is_long_header h.flags
    then ok (h.flags ∷ (to_be_bytes 4 (version_or_default h.version) ++ tail_bytes h))
    else ok (h.flags ∷ tail_bytes h)

-- A field of `n` bytes at the offset, and what follows it.
unfoldable pub field : ℕ → List ℕ → ℕ × List ℕ
field n buf = (from_be_bytes (take n buf), drop n buf)

-- The fields after the length byte.
unfoldable pub decode_fields : ℕ → Option ℕ → ℕ → List ℕ → PacketHeader
decode_fields flags version header_len rest =
    let cid = field 8 rest in
    let number = field 8 cid.1 in
    let ts = field 4 number.1 in
    let payload = field 2 ts.1 in
    record {
      flags = flags;
      version = version;
      header_len = header_len;
      connection_id = cid.0;
      packet_number = number.0;
      timestamp_micros = ts.0;
      payload_len = payload.0;
    }

-- From the length byte on, in a buffer of `size` bytes.
unfoldable pub decode_tail : ℕ → ℕ → Option ℕ → List ℕ → Result (PacketHeader × ℕ)
decode_tail size flags version rest =
    let len = field 1 rest in
    if ltb len.0 (min_len flags) || ltb size len.0
    then err (invalid_packet "Invalid header length")
    else ok (decode_fields flags version len.0 len.1, len.0)

unfoldable pub decode : List ℕ → Result (PacketHeader × ℕ)
decode [] = err buffer_too_short
decode (flags ∷ rest) =
    let size = length (flags ∷ rest) in
    let version = field 4 rest in
    if ltb size (min_len flags)
    then err buffer_too_short
    else if is_long_header flags
    then decode_tail size flags (some version.0) version.1
    else decode_tail size flags none rest
