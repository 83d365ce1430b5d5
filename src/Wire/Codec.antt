-- ===== src/Wire/Codec.antt =====
-- crates/gtp-wire/src/codec.rs: frames in a row within the payload of a packet. The mutable buffer of
-- the builder is its size with the bytes written behind the header.
pub mod Termination
pub mod Reading
pub mod Building
pub mod Packet
mod Examples
use gtp_rs.Base.{
  ℕ, zero, suc, ◌+◌, ◌-◌, ltb, leb, ◌==◌, not, if◌then◌else◌, Bool, true, false, Option, none, some,
  List, [], ◌∷◌, ◌++◌, length, drop,
}
use gtp_rs.Types.Errors.{
  Result, ok, err, ◌>>=◌, TransportError, buffer_too_short, invalid_packet, malformed_frame,
  resource_limit_exceeded,
}
use gtp_rs.Wire.Frame.{Frame, ack}
use gtp_rs.Wire.Encode.{encode}
use gtp_rs.Wire.Decode.{decode}
use gtp_rs.Wire.Header.{PacketHeader, min_len, set_ack_present}
use gtp_rs.Wire.Header

pub record FrameIterator : Type 0 where
  pub buf : List ℕ
  pub offset : ℕ

abbrev pub new_iterator : List ℕ → FrameIterator
new_iterator buf = record { buf = buf; offset = 0 }

abbrev pub remaining : FrameIterator → List ℕ
remaining it = drop it.offset it.buf

abbrev pub decoded : FrameIterator → Result (Frame × ℕ) → FrameIterator × Option (Result Frame)
decoded it (ok (frame, consumed)) =
    if consumed == 0
    then (
      record it { offset = length it.buf },
      some (err (malformed_frame "decoded frame consumed zero bytes")),
    )
    else (record it { offset = it.offset + consumed }, some (ok frame))
decoded it (err e) = (record it { offset = length it.buf }, some (err e))

-- The iterator after the call, and the item, if one is left.
unfoldable pub next : FrameIterator → FrameIterator × Option (Result Frame)
next it = if leb (length it.buf) it.offset then (it, none) else decoded it (decode (remaining it))

pub record PacketBuilder : Type 0 where
  pub capacity : ℕ
  pub header : PacketHeader
  pub header_len : ℕ
  pub payload : List ℕ

unfoldable pub new : ℕ → PacketHeader → Result PacketBuilder
new capacity header =
    if ltb capacity (min_len header.flags)
    then err buffer_too_short
    else if not (header.header_len == min_len header.flags)
    then err (invalid_packet "header_len field disagrees with flags-derived header size")
    else ok (record {
      capacity = capacity;
      header = header;
      header_len = min_len header.flags;
      payload = [];
    })

abbrev pub remaining_capacity : PacketBuilder → ℕ
remaining_capacity b = b.capacity - (b.header_len + length b.payload)

abbrev pub is_ack : Frame → Bool
is_ack (ack fields) = true
is_ack _ = false

unfoldable pub append_frame : PacketBuilder → Frame → Result PacketBuilder
append_frame b frame = do
  written ← encode (remaining_capacity b) frame
  ok (record b {
    payload = b.payload ++ written;
    header =
        if is_ack frame
        then record b.header { flags = set_ack_present b.header.flags true }
        else b.header;
  })

-- The bytes of the datagram.
unfoldable pub finish : PacketBuilder → Result (List ℕ)
finish b =
    if ltb 65535 (length b.payload)
    then err (resource_limit_exceeded "payload length exceeds u16::MAX")
    else do
      header_bytes ← Header.encode (record b.header { payload_len = length b.payload }) b.header_len
      ok (header_bytes ++ b.payload)
