-- ===== src/Wire/Encode.antt =====
-- crates/gtp-wire/src/frame.rs: `Frame::encode`. The buffer is its length; the result is the bytes
-- written at its start, whose number is the count that the source returns. On an error the source
-- may have written the type byte; its callers drop the buffer then.
use gtp_rs.Base.{
  ℕ, zero, suc, ◌+◌, ◌*◌, min, bit_and, ltb, ◌==◌, ◌&&◌, ◌||◌, Bool, true, false, if◌then◌else◌,
  List, [], ◌∷◌, ◌++◌, length, take, drop, replicate, get_or, to_be_bytes,
}
use gtp_rs.Types.Errors.{Result, ok, err, buffer_overflow}
use gtp_rs.Types.Serial.{to_u48}
use gtp_rs.Wire.Frame.{
  AckRange, max_ack_ranges, AckFields, DataFields, ReliableFields, RetxFields, ServerHelloFields,
  Frame, ack, data_frame, reliable_data, retx, ping, path_challenge, path_response, mtu_probe,
  close, ack_frequency, client_hello, server_hello, handshake_finish, server_finish, key_update,
  padding,
}

abbrev pub frame_type : Frame → ℕ
frame_type (padding len) = 0x00
frame_type (ack a) = 0x01
frame_type (data_frame d) = 0x02
frame_type (reliable_data r) = 0x03
frame_type (retx r) = 0x04
frame_type (ping nonce) = 0x05
frame_type (path_challenge bytes) = 0x06
frame_type (path_response bytes) = 0x07
frame_type (mtu_probe probe_id len) = 0x08
frame_type (close error_code reason) = 0x09
frame_type (ack_frequency packets delay threshold) = 0x0a
frame_type (client_hello pk nonce version) = 0x0b
frame_type (server_hello h) = 0x0c
frame_type (handshake_finish cookie proof) = 0x0d
frame_type (server_finish proof) = 0x0e
frame_type (key_update phase proof) = 0x10

abbrev pub is_ack_eliciting : Frame → Bool
is_ack_eliciting (ack a) = false
is_ack_eliciting (padding len) = false
is_ack_eliciting _ = true

-- The check of each arm: the bytes it needs, its type byte included.
abbrev pub checked : ℕ → Bool → ℕ → List ℕ → Result (List ℕ)
checked capacity too_long needed bytes =
    if ltb capacity needed || too_long then err buffer_overflow else ok bytes

-- `payload.len() > u16::MAX as usize`.
abbrev pub too_long : List ℕ → Bool
too_long payload = ltb 65535 (length payload)

abbrev pub encode_ranges : List AckRange → List ℕ
encode_ranges [] = []
encode_ranges (r ∷ rs) = to_be_bytes 4 r.gap ++ (to_be_bytes 4 r.length ++ encode_ranges rs)

unfoldable pub ack_body : AckFields → List ℕ
ack_body a =
    let count = min a.range_count max_ack_ranges in
    (to_be_bytes 8 a.largest_acked
      ++ (to_be_bytes 4 a.ack_delay_us
          ++ (to_be_bytes 1 count
              ++ (encode_ranges (take count a.ranges)
                  ++ (to_be_bytes 4 a.ect0_count
                      ++ (to_be_bytes 4 a.ect1_count ++ to_be_bytes 4 a.ce_count))))))

unfoldable pub encode_ack : ℕ → AckFields → Result (List ℕ)
encode_ack capacity a =
    checked capacity false (1 + 8 + 4 + 1 + min a.range_count max_ack_ranges * 8 + 4 + 4 + 4)
      (0x01 ∷ ack_body a)

unfoldable pub data_body : DataFields → List ℕ
data_body d =
    (to_be_bytes 8 d.message_id
      ++ (drop 2 (to_be_bytes 8 (to_u48 d.state_key))
          ++ (to_be_bytes 4 d.sequence
              ++ (to_be_bytes 4 d.generation
                  ++ (to_be_bytes 2 d.deadline_ms
                      ++ (to_be_bytes 2 (length d.payload) ++ d.payload))))))

unfoldable pub encode_data : ℕ → DataFields → Result (List ℕ)
encode_data capacity d =
    checked capacity (too_long d.payload) (1 + 8 + 6 + 4 + 4 + 2 + 2 + length d.payload)
      (0x02 ∷ data_body d)

unfoldable pub reliable_body : ReliableFields → List ℕ
reliable_body r =
    (to_be_bytes 8 r.message_id
      ++ (to_be_bytes 2 r.fragment_id
          ++ (to_be_bytes 2 r.total_fragments
              ++ (to_be_bytes 2 r.group_id
                  ++ (to_be_bytes 4 r.order_seq
                      ++ (to_be_bytes 2 (length r.payload) ++ r.payload))))))

unfoldable pub encode_reliable : ℕ → ReliableFields → Result (List ℕ)
encode_reliable capacity r =
    checked capacity (too_long r.payload) (1 + 8 + 2 + 2 + 2 + 4 + 2 + length r.payload)
      (0x03 ∷ reliable_body r)

unfoldable pub retx_body : RetxFields → List ℕ
retx_body r =
    (to_be_bytes 8 r.message_id
      ++ (to_be_bytes 2 r.fragment_id
          ++ (to_be_bytes 1 r.transmission_id ++ (to_be_bytes 2 (length r.payload) ++ r.payload))))

unfoldable pub encode_retx : ℕ → RetxFields → Result (List ℕ)
encode_retx capacity r =
    checked capacity (too_long r.payload) (1 + 8 + 2 + 1 + 2 + length r.payload)
      (0x04 ∷ retx_body r)

-- The last cut at most `n` that does not split a character: the loop of `Frame::Close`. In valid
-- UTF-8 the first byte is no continuation byte, so that the source's count does not pass 0.
abbrev pub character_boundary : List ℕ → ℕ → ℕ
character_boundary bytes zero = 0
character_boundary bytes (suc n) =
    let before = character_boundary bytes n in
    if ltb (suc n) (length bytes) && bit_and (get_or bytes (suc n) 0) 0xc0 == 0x80
    then before
    else suc n

-- How much of the reason is sent.
abbrev pub reason_length : List ℕ → ℕ
reason_length reason = character_boundary reason (min (length reason) 255)

unfoldable pub close_body : ℕ → List ℕ → List ℕ
close_body error_code reason =
    let reason_len = reason_length reason in
    to_be_bytes 2 error_code ++ (to_be_bytes 1 reason_len ++ take reason_len reason)

unfoldable pub encode_close : ℕ → ℕ → List ℕ → Result (List ℕ)
encode_close capacity error_code reason =
    checked capacity false (1 + 2 + 1 + reason_length reason) (0x09 ∷ close_body error_code reason)

unfoldable pub encode_ack_frequency : ℕ → ℕ → ℕ → ℕ → Result (List ℕ)
encode_ack_frequency capacity packets delay threshold =
    checked capacity false (1 + 1 + 2 + 1)
      (0x0a ∷ (to_be_bytes 1 packets ++ (to_be_bytes 2 delay ++ to_be_bytes 1 threshold)))

unfoldable pub encode_client_hello : ℕ → List ℕ → List ℕ → ℕ → Result (List ℕ)
encode_client_hello capacity pk nonce version =
    checked capacity false (1 + 32 + 32 + 4) (0x0b ∷ (pk ++ (nonce ++ to_be_bytes 4 version)))

unfoldable pub server_hello_body : ServerHelloFields → List ℕ
server_hello_body h =
    h.server_public_key
    ++ (h.server_nonce
        ++ (h.stateless_cookie ++ (to_be_bytes 8 h.assigned_cid ++ h.server_static_pk)))

unfoldable pub encode_server_hello : ℕ → ServerHelloFields → Result (List ℕ)
encode_server_hello capacity h =
    checked capacity false (1 + 32 + 32 + 32 + 8 + 32) (0x0c ∷ server_hello_body h)

unfoldable pub encode_key_update : ℕ → ℕ → List ℕ → Result (List ℕ)
encode_key_update capacity phase proof =
    checked capacity false (1 + 8 + 32) (0x10 ∷ (to_be_bytes 8 phase ++ proof))

-- The sum of sizes does not wrap: the padding of a probe is far below 2^64.
unfoldable pub encode_mtu_probe : ℕ → ℕ → ℕ → Result (List ℕ)
encode_mtu_probe capacity probe_id len =
    checked capacity false (1 + 4 + len) (0x08 ∷ (to_be_bytes 4 probe_id ++ replicate len 0))

-- The arms after the check that the buffer has room for the type byte.
unfoldable pub encode_frame : ℕ → Frame → Result (List ℕ)
encode_frame capacity (ack a) = encode_ack capacity a
encode_frame capacity (data_frame d) = encode_data capacity d
encode_frame capacity (reliable_data r) = encode_reliable capacity r
encode_frame capacity (retx r) = encode_retx capacity r
encode_frame capacity (ping nonce) = checked capacity false (1 + 8) (0x05 ∷ to_be_bytes 8 nonce)
encode_frame capacity (path_challenge bytes) = checked capacity false (1 + 8) (0x06 ∷ bytes)
encode_frame capacity (path_response bytes) = checked capacity false (1 + 8) (0x07 ∷ bytes)
encode_frame capacity (mtu_probe probe_id len) = encode_mtu_probe capacity probe_id len
encode_frame capacity (close error_code reason) = encode_close capacity error_code reason
encode_frame capacity (ack_frequency packets delay threshold) =
    encode_ack_frequency capacity packets delay threshold
encode_frame capacity (client_hello pk nonce version) =
    encode_client_hello capacity pk nonce version
encode_frame capacity (server_hello h) = encode_server_hello capacity h
encode_frame capacity (handshake_finish cookie proof) =
    checked capacity false (1 + 32 + 32) (0x0d ∷ (cookie ++ proof))
encode_frame capacity (server_finish proof) = checked capacity false (1 + 32) (0x0e ∷ proof)
encode_frame capacity (key_update phase proof) = encode_key_update capacity phase proof
encode_frame capacity (padding len) = checked capacity false (1 + len) (0x00 ∷ replicate len 0)

unfoldable pub encode : ℕ → Frame → Result (List ℕ)
encode zero f = err buffer_overflow
encode (suc room) f = encode_frame (suc room) f
