-- ===== src/Wire/RoundTrip.antt =====
-- Every frame the encoder accepts is read back, and encoding stays inside the buffer.
mod Payloads
mod Control
use gtp_rs.Base.{
  ℕ, zero, suc, ◌+◌, ◌-◌, ◌%◌, ◌≤◌, ◌<◌, ◌^◌, ◌≡◌, refl, sym, ap, ◌∙◌, subst, ltb, ◌||◌,
  if◌then◌else◌, Bool, true, false, arith, List, [], ◌∷◌, ◌++◌, length, replicate, length-append,
  append-nil, to_be_bytes, length-replicate,
}
use gtp_rs.Types.Errors.{Result, ok, err, ◌>>=◌}
use gtp_rs.Wire.Frame.{
  Frame, ack, data_frame, reliable_data, retx, ping, path_challenge, path_response, mtu_probe,
  close, ack_frequency, client_hello, server_hello, handshake_finish, server_finish, key_update,
  padding,
}
use gtp_rs.Wire.Utf8.{is_utf8}
use gtp_rs.Wire.Reader.{read_uint, read_uint-append, uint_last, bytes_last}
use gtp_rs.Wire.Encode.{
  checked, too_long, encode_ack, encode_data, encode_reliable, encode_retx, encode_close,
  encode_ack_frequency, encode_client_hello, encode_server_hello, encode_key_update,
  encode_mtu_probe, encode_frame, encode, frame_type,
}
use gtp_rs.Wire.Decode.{
  decode_path_challenge, decode_path_response, decode_ping, decode_server_finish, decode_frame,
  decode,
}
use gtp_rs.Wire.RoundTrip.Payloads.{
  IsReliable, IsRetx, IsData, decode_reliable-append, decode_retx-append, decode_data-append,
}
use gtp_rs.Wire.RoundTrip.Control.{
  IsAck, IsServerHello, decode_ack-append, decode_close-append, decode_mtu_probe-append,
  decode_ack_frequency-append, decode_client_hello-append, decode_server_hello-append,
  decode_handshake_finish-append, decode_key_update-append,
}

-- The values of the fields' Rust types; a close reason is UTF-8 of at most 255 bytes, and an ACK has
-- at most 32 ranges, with the default range in the slots past them.
abbrev pub IsFrame : Frame → Type 0
IsFrame (ack a) = IsAck a
IsFrame (data_frame d) = IsData d
IsFrame (reliable_data r) = IsReliable r
IsFrame (retx r) = IsRetx r
IsFrame (ping nonce) = nonce < 2 ^ 64
IsFrame (path_challenge bytes) = length bytes ≡ 8
IsFrame (path_response bytes) = length bytes ≡ 8
IsFrame (mtu_probe probe_id len) = probe_id < 2 ^ 32
IsFrame (close error_code reason) =
    (error_code < 2 ^ 16) × (length reason < 2 ^ 8) × (is_utf8 reason ≡ true)
IsFrame (ack_frequency packets delay threshold) =
    (packets < 2 ^ 8) × (delay < 2 ^ 16) × (threshold < 2 ^ 8)
IsFrame (client_hello pk nonce version) =
    (length pk ≡ 32) × (length nonce ≡ 32) × (version < 2 ^ 32)
IsFrame (server_hello h) = IsServerHello h
IsFrame (handshake_finish cookie proof) = (length cookie ≡ 32) × (length proof ≡ 32)
IsFrame (server_finish proof) = length proof ≡ 32
IsFrame (key_update phase proof) = (phase < 2 ^ 64) × (length proof ≡ 32)
IsFrame (padding len) = Unit {0}

-- What may follow a frame: a probe and padding take all there is.
abbrev pub Follows : Frame → List ℕ → Type 0
Follows (mtu_probe probe_id len) rest = rest ≡ []
Follows (padding len) rest = rest ≡ []
Follows _ rest = Unit {0}

checked-ok :
    (capacity needed : ℕ) (long : Bool) (bytes out : List ℕ)
    → checked capacity long needed bytes ≡ ok out
    → (long ≡ false) × (bytes ≡ out)
checked-ok capacity needed long bytes out h = ground arith

one_byte : (type : ℕ) → type < 256 → to_be_bytes 1 type ≡ type ∷ []
unfolding to_be_bytes
one_byte type h = let e : type % 256 ≡ type = omega arith in rw e refl

-- A type byte in front of a body that is read back.
typed :
    (type : ℕ) (body rest : List ℕ) (f : Frame)
    → type < 256
    → decode_frame type (body ++ rest) ≡ ok (f, rest)
    → decode ((type ∷ body) ++ rest) ≡ ok (f, length (type ∷ body))
unfolding decode
typed type body rest f small h =
    let read : read_uint 1 (type ∷ (body ++ rest)) ≡ ok (type, body ++ rest) =
      subst (λ bs. read_uint 1 (bs ++ (body ++ rest)) ≡ ok (type, body ++ rest))
        (one_byte type small) (read_uint-append 1 type (body ++ rest) (omega arith)) in
    rw (read, h) (ap (λ n. ok (f, n)) (omega (arith, length-append body rest)))

checked_typed :
    (capacity needed : ℕ) (long : Bool) (type : ℕ) (body rest bytes : List ℕ) (f : Frame)
    → type < 256
    → checked capacity long needed (type ∷ body) ≡ ok bytes
    → (long ≡ false → decode_frame type (body ++ rest) ≡ ok (f, rest))
    → decode (bytes ++ rest) ≡ ok (f, length bytes)
checked_typed capacity needed long type body rest bytes f small h k =
    let c = checked-ok capacity needed long (type ∷ body) bytes h in
    subst (λ bs. decode (bs ++ rest) ≡ ok (f, length bs)) c.1 (typed type body rest f small (k c.0))

short_payload : (payload : List ℕ) → too_long payload ≡ false → length payload < 2 ^ 16
short_payload payload h = ground arith

zeros_length : (len : ℕ) → length {A = ℕ} (replicate len 0) ≡ len
zeros_length len = length-replicate len 0

encoded :
    (f : Frame) (capacity : ℕ) (bytes rest : List ℕ)
    → IsFrame f
    → Follows f rest
    → encode_frame capacity f ≡ ok bytes
    → decode (bytes ++ rest) ≡ ok (f, length bytes)
unfolding encode_frame encode_ack encode_data encode_reliable encode_retx encode_close
    encode_ack_frequency encode_client_hello encode_server_hello encode_key_update encode_mtu_probe
    decode_frame decode_ping decode_path_challenge decode_path_response decode_server_finish
encoded (ack a) capacity bytes rest i l h =
    checked_typed capacity _ _ 1 _ rest bytes _ (omega arith) h
      (λ short. decode_ack-append a rest i)
encoded (data_frame d) capacity bytes rest i l h =
    checked_typed capacity _ _ 2 _ rest bytes _ (omega arith) h
      (λ short. decode_data-append d rest i (short_payload d.payload short))
encoded (reliable_data r) capacity bytes rest i l h =
    checked_typed capacity _ _ 3 _ rest bytes _ (omega arith) h
      (λ short. decode_reliable-append r rest i (short_payload r.payload short))
encoded (retx r) capacity bytes rest i l h =
    checked_typed capacity _ _ 4 _ rest bytes _ (omega arith) h
      (λ short. decode_retx-append r rest i (short_payload r.payload short))
encoded (ping nonce) capacity bytes rest i l h =
    checked_typed capacity _ _ 5 _ rest bytes _ (omega arith) h
      (λ short. uint_last 8 nonce rest _ (omega (arith, i)))
encoded (path_challenge content) capacity bytes rest i l h =
    checked_typed capacity _ _ 6 _ rest bytes _ (omega arith) h
      (λ short. bytes_last 8 content rest _ i)
encoded (path_response content) capacity bytes rest i l h =
    checked_typed capacity _ _ 7 _ rest bytes _ (omega arith) h
      (λ short. bytes_last 8 content rest _ i)
encoded (mtu_probe probe_id len) capacity bytes rest i l h =
    checked_typed capacity _ _ 8 _ rest bytes _ (omega arith) h (λ short. rw l (
      rw (append-nil (to_be_bytes 4 probe_id ++ replicate len 0))
        (decode_mtu_probe-append probe_id len i)))
encoded (close error_code reason) capacity bytes rest i l h =
    checked_typed capacity _ _ 9 _ rest bytes _ (omega arith) h
      (λ short. decode_close-append error_code reason rest i.0 i.1 i.2)
encoded (ack_frequency packets delay threshold) capacity bytes rest i l h =
    checked_typed capacity _ _ 10 _ rest bytes _ (omega arith) h
      (λ short. decode_ack_frequency-append packets delay threshold rest i.0 i.1 i.2)
encoded (client_hello pk nonce version) capacity bytes rest i l h =
    checked_typed capacity _ _ 11 _ rest bytes _ (omega arith) h
      (λ short. decode_client_hello-append pk nonce version rest i.0 i.1 i.2)
encoded (server_hello s) capacity bytes rest i l h =
    checked_typed capacity _ _ 12 _ rest bytes _ (omega arith) h
      (λ short. decode_server_hello-append s rest i)
encoded (handshake_finish cookie proof) capacity bytes rest i l h =
    checked_typed capacity _ _ 13 _ rest bytes _ (omega arith) h
      (λ short. decode_handshake_finish-append cookie proof rest i.0 i.1)
encoded (server_finish proof) capacity bytes rest i l h =
    checked_typed capacity _ _ 14 _ rest bytes _ (omega arith) h
      (λ short. bytes_last 32 proof rest _ i)
encoded (key_update phase proof) capacity bytes rest i l h =
    checked_typed capacity _ _ 16 _ rest bytes _ (omega arith) h
      (λ short. decode_key_update-append phase proof rest i.0 i.1)
encoded (padding len) capacity bytes rest i l h =
    checked_typed capacity _ _ 0 _ rest bytes _ (omega arith) h (λ short. rw l (
      let zeros : List ℕ = replicate len 0 in
      rw (append-nil zeros) (ap (λ n. ok (padding n, [])) (zeros_length len))))

-- A frame with fields of their Rust types that the encoder accepts is read back by the decoder,
-- with the number of bytes written, whatever follows it in the buffer. A probe and padding are read
-- back where nothing follows, a close reason where it is UTF-8 of at most 255 bytes, and an ACK where
-- its range count is at most 32 and the slots of its array past the count hold the default range.
pub decode-encode :
    (f : Frame) (capacity : ℕ) (bytes rest : List ℕ)
    → IsFrame f
    → Follows f rest
    → encode capacity f ≡ ok bytes
    → decode (bytes ++ rest) ≡ ok (f, length bytes)
unfolding encode
decode-encode f zero bytes rest i l h = cc
decode-encode f (suc room) bytes rest i l h = encoded f (suc room) bytes rest i l h
