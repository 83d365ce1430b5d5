-- ===== src/Wire/Codec/Reading.antt =====
-- Frames in a row are read back one by one.
use gtp_rs.Base.{
  ℕ, zero, suc, ◌+◌, ◌<◌, ◌≡◌, refl, ap, ◌∙◌, subst, arith, leb, ◌==◌, Bool, true, false, some,
  List, [], ◌∷◌, ◌++◌, map, length, length-append, append_assoc, drop-length-append,
}
use gtp_rs.Types.Errors.{ok}
use gtp_rs.Wire.Frame.{
  Frame, ack, data_frame, reliable_data, retx, ping, path_challenge, path_response, mtu_probe,
  close, ack_frequency, client_hello, server_hello, handshake_finish, server_finish, key_update,
  padding,
}
use gtp_rs.Wire.Encode.{
  checked, encode_ack, encode_data, encode_reliable, encode_retx, encode_close,
  encode_ack_frequency, encode_client_hello, encode_server_hello, encode_key_update,
  encode_mtu_probe, encode_frame, encode,
}
use gtp_rs.Wire.RoundTrip.{IsFrame, Follows, decode-encode}
use gtp_rs.Wire.Codec.{next}
use gtp_rs.Wire.Codec.Termination.{items, items-end, items-cons}

-- Frames that take the rest of the buffer, and may only stand last.
abbrev pub takes_rest : Frame → Bool
takes_rest (mtu_probe probe_id len) = true
takes_rest (padding len) = true
takes_rest _ = false

-- Frames with fields of their Rust types, in an order in which each is read back.
abbrev pub AreFrames : List Frame → Type 0
AreFrames [] = Unit {0}
AreFrames (f ∷ []) = IsFrame f
AreFrames (f ∷ g ∷ fs) = IsFrame f × (takes_rest f ≡ false) × AreFrames (g ∷ fs)

Follows-self : (f : Frame) (rest : List ℕ) → takes_rest f ≡ false → Follows f rest
Follows-self (ack a) rest h = tt
Follows-self (data_frame d) rest h = tt
Follows-self (reliable_data r) rest h = tt
Follows-self (retx r) rest h = tt
Follows-self (ping nonce) rest h = tt
Follows-self (path_challenge content) rest h = tt
Follows-self (path_response content) rest h = tt
Follows-self (mtu_probe probe_id len) rest h = cc
Follows-self (close error_code reason) rest h = tt
Follows-self (ack_frequency packets delay threshold) rest h = tt
Follows-self (client_hello pk nonce version) rest h = tt
Follows-self (server_hello s) rest h = tt
Follows-self (handshake_finish cookie proof) rest h = tt
Follows-self (server_finish proof) rest h = tt
Follows-self (key_update phase proof) rest h = tt
Follows-self (padding len) rest h = cc

Follows-nil : (f : Frame) → Follows f []
Follows-nil (ack a) = tt
Follows-nil (data_frame d) = tt
Follows-nil (reliable_data r) = tt
Follows-nil (retx r) = tt
Follows-nil (ping nonce) = tt
Follows-nil (path_challenge content) = tt
Follows-nil (path_response content) = tt
Follows-nil (mtu_probe probe_id len) = refl
Follows-nil (close error_code reason) = tt
Follows-nil (ack_frequency packets delay threshold) = tt
Follows-nil (client_hello pk nonce version) = tt
Follows-nil (server_hello s) = tt
Follows-nil (handshake_finish cookie proof) = tt
Follows-nil (server_finish proof) = tt
Follows-nil (key_update phase proof) = tt
Follows-nil (padding len) = refl

checked-positive :
    (capacity needed type : ℕ) (long : Bool) (body out : List ℕ)
    → checked capacity long needed (type ∷ body) ≡ ok out
    → 0 < length out
checked-positive capacity needed type long body out h =
    let same : type ∷ body ≡ out = ground arith in subst (λ l. 0 < length l) same (omega arith)

-- Every frame takes at least a byte.
encode-positive :
    (f : Frame) (capacity : ℕ) (out : List ℕ) → encode capacity f ≡ ok out → 0 < length out
unfolding encode encode_frame encode_ack encode_data encode_reliable encode_retx encode_close
    encode_ack_frequency encode_client_hello encode_server_hello encode_key_update encode_mtu_probe
encode-positive f zero out h = cc
encode-positive (ack a) (suc room) out h = checked-positive (suc room) _ _ _ _ out h
encode-positive (data_frame d) (suc room) out h = checked-positive (suc room) _ _ _ _ out h
encode-positive (reliable_data r) (suc room) out h = checked-positive (suc room) _ _ _ _ out h
encode-positive (retx r) (suc room) out h = checked-positive (suc room) _ _ _ _ out h
encode-positive (ping nonce) (suc room) out h = checked-positive (suc room) _ _ _ _ out h
encode-positive (path_challenge content) (suc room) out h =
    checked-positive (suc room) _ _ _ _ out h
encode-positive (path_response content) (suc room) out h = checked-positive (suc room) _ _ _ _ out h
encode-positive (mtu_probe probe_id len) (suc room) out h =
    checked-positive (suc room) _ _ _ _ out h
encode-positive (close error_code reason) (suc room) out h =
    checked-positive (suc room) _ _ _ _ out h
encode-positive (ack_frequency packets delay threshold) (suc room) out h =
    checked-positive (suc room) _ _ _ _ out h
encode-positive (client_hello pk nonce version) (suc room) out h =
    checked-positive (suc room) _ _ _ _ out h
encode-positive (server_hello s) (suc room) out h = checked-positive (suc room) _ _ _ _ out h
encode-positive (handshake_finish cookie proof) (suc room) out h =
    checked-positive (suc room) _ _ _ _ out h
encode-positive (server_finish proof) (suc room) out h = checked-positive (suc room) _ _ _ _ out h
encode-positive (key_update phase proof) (suc room) out h =
    checked-positive (suc room) _ _ _ _ out h
encode-positive (padding len) (suc room) out h = checked-positive (suc room) _ _ _ _ out h

-- The bytes of frames written one after the other.
abbrev pub AreWritten : List Frame → List ℕ → Type 0
AreWritten [] bytes = bytes ≡ []
AreWritten (f ∷ fs) bytes =
    (capacity : ℕ) × (first : List ℕ) × (rest : List ℕ) × (encode capacity f ≡ ok first)
    × (bytes ≡ first ++ rest)
    × AreWritten fs rest

-- One frame is read, where the iterator stands behind the bytes `before`.
next-frame :
    (f : Frame) (capacity : ℕ) (before first rest : List ℕ)
    → IsFrame f
    → Follows f rest
    → encode capacity f ≡ ok first
    → next (record { buf = before ++ (first ++ rest); offset = length before }) ≡ (
      record { buf = before ++ (first ++ rest); offset = length before + length first },
      some (ok f),
    )
unfolding next
next-frame f capacity before first rest i l h =
    let positive = encode-positive f capacity first h in
    let more : leb (length (before ++ (first ++ rest))) (length before) ≡ false =
      ground (arith, positive, length-append before (first ++ rest), length-append first rest) in
    let moves : (length first == 0) ≡ false = ground (arith, positive) in
    rw
      (
        more,
        drop-length-append before (first ++ rest),
        decode-encode f capacity first rest i l h,
        moves,
      )
      refl

pub read_written :
    (fuel : ℕ) (fs : List Frame) (before bytes : List ℕ)
    → AreFrames fs
    → AreWritten fs bytes
    → length bytes < fuel
    → items fuel (record { buf = before ++ bytes; offset = length before }) ≡ some (map ok fs)
read_written zero fs before bytes i w h = elim h [ ]
read_written (suc fuel) [] before bytes i w h =
    items-end (suc fuel) _ (omega arith) (omega (arith, length-append before bytes, ap length w))
read_written (suc fuel) (f ∷ []) before bytes i (capacity, first, rest, written, split, w) h =
    let positive = encode-positive f capacity first written in
    let whole : length bytes ≡ length first + length rest =
      ap length split ∙ length-append first rest in
    rw (split, w)
      (items-cons fuel _ _ (ok f) []
        (next-frame f capacity before first [] i (Follows-nil f) written)
        (items-end fuel _ (omega (arith, positive, h, whole))
          (omega (arith, length-append before (first ++ []), length-append first []))))
read_written (suc fuel) (f ∷ g ∷ fs) before bytes (i, mid, is)
      (capacity, first, rest, written, split, w) h =
    let positive = encode-positive f capacity first written in
    let whole : length bytes ≡ length first + length rest =
      ap length split ∙ length-append first rest in
    let later =
      read_written fuel (g ∷ fs) (before ++ first) rest is w (omega (arith, positive, h, whole)) in
    rw split (
      items-cons fuel _ _ (ok f) (map ok (g ∷ fs))
        (next-frame f capacity before first rest i (Follows-self f rest mid) written)
        (rw (append_assoc before first rest, length-append before first) at later))
