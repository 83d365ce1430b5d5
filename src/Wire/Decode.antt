-- ===== src/Wire/Decode.antt =====
-- crates/gtp-wire/src/frame.rs: `Frame::decode`.
use gtp_rs.Base.{
  ℕ, zero, suc, ◌-◌, ltb, ◌==◌, if◌then◌else◌, List, [], ◌∷◌, ◌++◌, length, replicate,
  from_be_bytes,
}
use gtp_rs.Types.Errors.{Result, ok, err, ◌>>=◌, malformed_frame, resource_limit_exceeded}
use gtp_rs.Types.Serial.{from_u48}
use gtp_rs.Wire.Frame.{
  AckRange, default_range, max_ack_ranges, Frame, ack, data_frame, reliable_data, retx, ping,
  path_challenge, path_response, mtu_probe, close, ack_frequency, client_hello, server_hello,
  handshake_finish, server_finish, key_update, padding,
}
use gtp_rs.Wire.Reader.{read_bytes, read_u8, read_u16, read_u32, read_u64}
use gtp_rs.Wire.Utf8.{is_utf8}

-- The first `count` ranges; the rest of the array of 32 keeps its default.
unfoldable pub read_ranges : ℕ → List ℕ → Result (List AckRange × List ℕ)
read_ranges zero buf = ok ([], buf)
read_ranges (suc count) buf = do
  (gap, buf) ← read_u32 buf
  (length, buf) ← read_u32 buf
  (ranges, buf) ← read_ranges count buf
  ok (record { gap = gap; length = length } ∷ ranges, buf)

-- From the ranges on, after the check of their count.
unfoldable pub decode_ack_ranges : ℕ → ℕ → ℕ → List ℕ → Result (Frame × List ℕ)
decode_ack_ranges largest ack_delay range_count buf = do
  (ranges, buf) ← read_ranges range_count buf
  (ect0, buf) ← read_u32 buf
  (ect1, buf) ← read_u32 buf
  (ce, buf) ← read_u32 buf
  ok (
    ack (record {
      largest_acked = largest;
      ack_delay_us = ack_delay;
      ranges = ranges ++ replicate (max_ack_ranges - range_count) default_range;
      range_count = range_count;
      ect0_count = ect0;
      ect1_count = ect1;
      ce_count = ce;
    }),
    buf,
  )

unfoldable pub decode_ack : List ℕ → Result (Frame × List ℕ)
decode_ack buf = do
  (largest, buf) ← read_u64 buf
  (ack_delay, buf) ← read_u32 buf
  (range_count, buf) ← read_u8 buf
  if ltb max_ack_ranges range_count
      then err (resource_limit_exceeded "Too many ACK ranges")
      else decode_ack_ranges largest ack_delay range_count buf

unfoldable pub decode_data : List ℕ → Result (Frame × List ℕ)
decode_data buf = do
  (message_id, buf) ← read_u64 buf
  (key_slice, buf) ← read_bytes 6 buf
  (sequence, buf) ← read_u32 buf
  (generation, buf) ← read_u32 buf
  (deadline, buf) ← read_u16 buf
  (payload_len, buf) ← read_u16 buf
  (payload, buf) ← read_bytes payload_len buf
  ok (
    data_frame (record {
      message_id = message_id;
      state_key = from_u48 (from_be_bytes (0 ∷ 0 ∷ key_slice));
      sequence = sequence;
      generation = generation;
      deadline_ms = deadline;
      payload = payload;
    }),
    buf,
  )

unfoldable pub decode_reliable : List ℕ → Result (Frame × List ℕ)
decode_reliable buf = do
  (message_id, buf) ← read_u64 buf
  (fragment_id, buf) ← read_u16 buf
  (total_fragments, buf) ← read_u16 buf
  (group_id, buf) ← read_u16 buf
  (order_seq, buf) ← read_u32 buf
  (payload_len, buf) ← read_u16 buf
  (payload, buf) ← read_bytes payload_len buf
  ok (
    reliable_data (record {
      message_id = message_id;
      fragment_id = fragment_id;
      total_fragments = total_fragments;
      group_id = group_id;
      order_seq = order_seq;
      payload = payload;
    }),
    buf,
  )

unfoldable pub decode_retx : List ℕ → Result (Frame × List ℕ)
decode_retx buf = do
  (message_id, buf) ← read_u64 buf
  (fragment_id, buf) ← read_u16 buf
  (transmission_id, buf) ← read_u8 buf
  (payload_len, buf) ← read_u16 buf
  (payload, buf) ← read_bytes payload_len buf
  ok (
    retx (record {
      message_id = message_id;
      fragment_id = fragment_id;
      transmission_id = transmission_id;
      payload = payload;
    }),
    buf,
  )

-- A probe and padding take the rest of the buffer.
unfoldable pub decode_mtu_probe : List ℕ → Result (Frame × List ℕ)
decode_mtu_probe buf = do (probe_id, buf) ← read_u32 buf; ok (mtu_probe probe_id (length buf), [])

unfoldable pub decode_close : List ℕ → Result (Frame × List ℕ)
decode_close buf = do
  (error_code, buf) ← read_u16 buf
  (reason_len, buf) ← read_u8 buf
  (reason, buf) ← read_bytes reason_len buf
  if is_utf8 reason
      then ok (close error_code reason, buf)
      else err (malformed_frame "Malformed UTF-8 close reason")

unfoldable pub decode_ack_frequency : List ℕ → Result (Frame × List ℕ)
decode_ack_frequency buf = do
  (packets, buf) ← read_u8 buf
  (delay, buf) ← read_u16 buf
  (threshold, buf) ← read_u8 buf
  ok (ack_frequency packets delay threshold, buf)

unfoldable pub decode_client_hello : List ℕ → Result (Frame × List ℕ)
decode_client_hello buf = do
  (pk, buf) ← read_bytes 32 buf
  (nonce, buf) ← read_bytes 32 buf
  (version, buf) ← read_u32 buf
  ok (client_hello pk nonce version, buf)

unfoldable pub decode_server_hello : List ℕ → Result (Frame × List ℕ)
decode_server_hello buf = do
  (pk, buf) ← read_bytes 32 buf
  (nonce, buf) ← read_bytes 32 buf
  (cookie, buf) ← read_bytes 32 buf
  (cid, buf) ← read_u64 buf
  (static_pk, buf) ← read_bytes 32 buf
  ok (
    server_hello (record {
      server_public_key = pk;
      server_nonce = nonce;
      stateless_cookie = cookie;
      assigned_cid = cid;
      server_static_pk = static_pk;
    }),
    buf,
  )

unfoldable pub decode_ping : List ℕ → Result (Frame × List ℕ)
decode_ping buf = do (nonce, buf) ← read_u64 buf; ok (ping nonce, buf)

unfoldable pub decode_path_challenge : List ℕ → Result (Frame × List ℕ)
decode_path_challenge buf = do (bytes, buf) ← read_bytes 8 buf; ok (path_challenge bytes, buf)

unfoldable pub decode_path_response : List ℕ → Result (Frame × List ℕ)
decode_path_response buf = do (bytes, buf) ← read_bytes 8 buf; ok (path_response bytes, buf)

unfoldable pub decode_handshake_finish : List ℕ → Result (Frame × List ℕ)
decode_handshake_finish buf = do
  (cookie, buf) ← read_bytes 32 buf
  (proof, buf) ← read_bytes 32 buf
  ok (handshake_finish cookie proof, buf)

unfoldable pub decode_server_finish : List ℕ → Result (Frame × List ℕ)
decode_server_finish buf = do (proof, buf) ← read_bytes 32 buf; ok (server_finish proof, buf)

unfoldable pub decode_key_update : List ℕ → Result (Frame × List ℕ)
decode_key_update buf = do
  (phase, buf) ← read_u64 buf
  (proof, buf) ← read_bytes 32 buf
  ok (key_update phase proof, buf)

-- The `match` on the type byte.
unfoldable pub decode_frame : ℕ → List ℕ → Result (Frame × List ℕ)
decode_frame frame_type buf =
    if frame_type == 0x01
    then decode_ack buf
    else if frame_type == 0x02
    then decode_data buf
    else if frame_type == 0x03
    then decode_reliable buf
    else if frame_type == 0x04
    then decode_retx buf
    else if frame_type == 0x05
    then decode_ping buf
    else if frame_type == 0x06
    then decode_path_challenge buf
    else if frame_type == 0x07
    then decode_path_response buf
    else if frame_type == 0x08
    then decode_mtu_probe buf
    else if frame_type == 0x09
    then decode_close buf
    else if frame_type == 0x0a
    then decode_ack_frequency buf
    else if frame_type == 0x0b
    then decode_client_hello buf
    else if frame_type == 0x0c
    then decode_server_hello buf
    else if frame_type == 0x0d
    then decode_handshake_finish buf
    else if frame_type == 0x0e
    then decode_server_finish buf
    else if frame_type == 0x10
    then decode_key_update buf
    else if frame_type == 0x00
    then ok (padding (length buf), [])
    else err (malformed_frame "Unknown TLV frame type")

-- The frame and the number of bytes it took.
unfoldable pub decode : List ℕ → Result (Frame × ℕ)
decode buf = do
  (frame_type, rest) ← read_u8 buf
  (frame, rest) ← decode_frame frame_type rest
  ok (frame, length buf - length rest)
