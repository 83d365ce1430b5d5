-- ===== src/Wire/RoundTrip/Control.antt =====
-- The frames that carry no payload are read back.
use gtp_rs.Base.{
  ℕ, zero, suc, ◌-◌, ◌≤◌, ◌<◌, ◌^◌, ◌≡◌, refl, sym, ap, ◌∙◌, min, ltb, true, false, arith, List, [],
  ◌∷◌, ◌++◌, length, take, drop, replicate, length-replicate, take-append-drop, All, append_assoc,
  to_be_bytes,
}
use gtp_rs.Types.Errors.{ok}
use gtp_rs.Wire.Frame.{
  AckRange, default_range, max_ack_ranges, AckFields, ServerHelloFields, ack, mtu_probe, close,
  ack_frequency, client_hello, server_hello, handshake_finish, key_update,
}
use gtp_rs.Wire.Utf8.{is_utf8}
use gtp_rs.Wire.Reader.{uint_step, uint_last, bytes_step, bytes_last}
use gtp_rs.Wire.Encode.{encode_ranges, ack_body, close_body, server_hello_body, character_boundary}
use gtp_rs.Wire.Decode.{
  read_ranges, decode_ack, decode_ack_ranges, decode_client_hello, decode_server_hello,
  decode_close, decode_ack_frequency, decode_mtu_probe, decode_key_update, decode_handshake_finish,
}

abbrev pub IsRange : AckRange → Type 0
IsRange r = (r.gap < 2 ^ 32) × (r.length < 2 ^ 32)

-- The array of 32 is filled up with default ranges past the count.
abbrev pub IsAck : AckFields → Type 0
IsAck a =
    (a.largest_acked < 2 ^ 64)
    × (a.ack_delay_us < 2 ^ 32)
    × (a.range_count ≤ max_ack_ranges)
    × (a.range_count ≤ length a.ranges)
    × All IsRange a.ranges
    × (drop a.range_count a.ranges ≡ replicate (max_ack_ranges - a.range_count) default_range)
    × (a.ect0_count < 2 ^ 32)
    × (a.ect1_count < 2 ^ 32)
    × (a.ce_count < 2 ^ 32)

read_ranges-append :
    (rs : List AckRange) (n : ℕ) (rest : List ℕ)
    → All IsRange rs
    → n ≤ length rs
    → read_ranges n (encode_ranges (take n rs) ++ rest) ≡ ok (take n rs, rest)
unfolding read_ranges
read_ranges-append rs zero rest h l = refl
read_ranges-append [] (suc n) rest h l = elim l [ ]
read_ranges-append (r ∷ rs) (suc n) rest h l =
    uint_step 4 r.gap _ rest _ (omega (arith, h.0.0))
    ∙ uint_step 4 r.length _ rest _ (omega (arith, h.0.1))
    ∙ rw (read_ranges-append rs n rest h.1 (omega arith)) refl

-- The readers after the count.
read_tail :
    (a : AckFields) (rest : List ℕ)
    → IsAck a
    → decode_ack_ranges a.largest_acked a.ack_delay_us a.range_count (
        (encode_ranges (take a.range_count a.ranges)
          ++ (to_be_bytes 4 a.ect0_count
              ++ (to_be_bytes 4 a.ect1_count ++ to_be_bytes 4 a.ce_count)))
        ++ rest)
      ≡ ok (ack a, rest)
unfolding decode_ack_ranges
read_tail a rest h =
    let sent = encode_ranges (take a.range_count a.ranges) in
    let counts =
      to_be_bytes 4 a.ect0_count ++ (to_be_bytes 4 a.ect1_count ++ to_be_bytes 4 a.ce_count) in
    let whole : take a.range_count a.ranges
          ++ replicate (max_ack_ranges - a.range_count) default_range
        ≡ a.ranges =
      ap (λ f. take a.range_count a.ranges ++ f) (sym h.5)
      ∙ take-append-drop a.range_count a.ranges in
    rw
      (
        append_assoc sent counts rest,
        read_ranges-append a.ranges a.range_count (counts ++ rest) h.4 h.3,
      )
      (uint_step 4 a.ect0_count _ rest _ (omega (arith, h.6))
        ∙ uint_step 4 a.ect1_count _ rest _ (omega (arith, h.7))
        ∙ uint_last 4 a.ce_count rest _ (omega (arith, h.8))
        ∙ ap (λ rs. ok (ack (record a { ranges = rs }), rest)) whole)

pub decode_ack-append :
    (a : AckFields) (rest : List ℕ) → IsAck a → decode_ack (ack_body a ++ rest) ≡ ok (ack a, rest)
unfolding decode_ack ack_body
decode_ack-append a rest h = rw count (
    uint_step 8 a.largest_acked _ rest _ (omega (arith, h.0))
    ∙ uint_step 4 a.ack_delay_us _ rest _ (omega (arith, h.1))
    ∙ uint_step 1 a.range_count _ rest _ (omega (arith, h.2))
    ∙ rw few (read_tail a rest h))
  where
    few : ltb max_ack_ranges a.range_count ≡ false
    few = ground (arith, h.2)

    count : min a.range_count max_ack_ranges ≡ a.range_count
    count = omega (arith, h.2)

-- A reason of at most 255 bytes is sent whole.
character_boundary_whole : (bs : List ℕ) (n : ℕ) → length bs ≤ n → character_boundary bs n ≡ n
character_boundary_whole bs zero h = refl
character_boundary_whole bs (suc n) h = ground arith

take_whole : (bs : List ℕ) → take (length bs) bs ≡ bs
take_whole [] = refl
take_whole (b ∷ bs) = ap (◌∷◌ b) (take_whole bs)

pub decode_close-append :
    (error_code : ℕ) (reason rest : List ℕ)
    → error_code < 2 ^ 16
    → length reason < 2 ^ 8
    → is_utf8 reason ≡ true
    → decode_close (close_body error_code reason ++ rest) ≡ ok (close error_code reason, rest)
unfolding decode_close close_body
decode_close-append error_code reason rest h l u =
    let fits : min (length reason) 255 ≡ length reason = omega arith in
    let whole : character_boundary reason (length reason) ≡ length reason =
      character_boundary_whole reason (length reason) (omega arith) in
    rw (fits, whole, take_whole reason)
      (uint_step 2 error_code _ rest _ (omega (arith, h))
        ∙ uint_step 1 (length reason) _ rest _ (omega (arith, l))
        ∙ bytes_last (length reason) reason rest _ refl
        ∙ rw u refl)

pub decode_mtu_probe-append :
    (probe_id len : ℕ)
    → probe_id < 2 ^ 32
    → decode_mtu_probe (to_be_bytes 4 probe_id ++ replicate len 0) ≡ ok (mtu_probe probe_id len, [])
unfolding decode_mtu_probe
decode_mtu_probe-append probe_id len h =
    uint_last 4 probe_id (replicate len 0) _ (omega (arith, h))
    ∙ ap (λ n. ok (mtu_probe probe_id n, [])) (length-replicate len 0)

pub decode_ack_frequency-append :
    (packets delay threshold : ℕ) (rest : List ℕ)
    → packets < 2 ^ 8
    → delay < 2 ^ 16
    → threshold < 2 ^ 8
    → decode_ack_frequency
        ((to_be_bytes 1 packets ++ (to_be_bytes 2 delay ++ to_be_bytes 1 threshold)) ++ rest)
      ≡ ok (ack_frequency packets delay threshold, rest)
unfolding decode_ack_frequency
decode_ack_frequency-append packets delay threshold rest p d t =
    uint_step 1 packets _ rest _ (omega (arith, p))
    ∙ uint_step 2 delay _ rest _ (omega (arith, d))
    ∙ uint_last 1 threshold rest _ (omega (arith, t))

pub decode_client_hello-append :
    (pk nonce : List ℕ) (version : ℕ) (rest : List ℕ)
    → length pk ≡ 32
    → length nonce ≡ 32
    → version < 2 ^ 32
    → decode_client_hello ((pk ++ (nonce ++ to_be_bytes 4 version)) ++ rest)
      ≡ ok (client_hello pk nonce version, rest)
unfolding decode_client_hello
decode_client_hello-append pk nonce version rest p n v =
    bytes_step 32 pk _ rest _ p
    ∙ bytes_step 32 nonce _ rest _ n
    ∙ uint_last 4 version rest _ (omega (arith, v))

abbrev pub IsServerHello : ServerHelloFields → Type 0
IsServerHello h =
    (length h.server_public_key ≡ 32)
    × (length h.server_nonce ≡ 32)
    × (length h.stateless_cookie ≡ 32)
    × (h.assigned_cid < 2 ^ 64)
    × (length h.server_static_pk ≡ 32)

pub decode_server_hello-append :
    (s : ServerHelloFields) (rest : List ℕ)
    → IsServerHello s
    → decode_server_hello (server_hello_body s ++ rest) ≡ ok (server_hello s, rest)
unfolding decode_server_hello server_hello_body
decode_server_hello-append s rest h =
    bytes_step 32 s.server_public_key _ rest _ h.0
    ∙ bytes_step 32 s.server_nonce _ rest _ h.1
    ∙ bytes_step 32 s.stateless_cookie _ rest _ h.2
    ∙ uint_step 8 s.assigned_cid _ rest _ (omega (arith, h.3))
    ∙ bytes_last 32 s.server_static_pk rest _ h.4

pub decode_handshake_finish-append :
    (cookie proof rest : List ℕ)
    → length cookie ≡ 32
    → length proof ≡ 32
    → decode_handshake_finish ((cookie ++ proof) ++ rest) ≡ ok (handshake_finish cookie proof, rest)
unfolding decode_handshake_finish
decode_handshake_finish-append cookie proof rest c p =
    bytes_step 32 cookie _ rest _ c ∙ bytes_last 32 proof rest _ p

pub decode_key_update-append :
    (phase : ℕ) (proof rest : List ℕ)
    → phase < 2 ^ 64
    → length proof ≡ 32
    → decode_key_update ((to_be_bytes 8 phase ++ proof) ++ rest) ≡ ok (key_update phase proof, rest)
unfolding decode_key_update
decode_key_update-append phase proof rest h p =
    uint_step 8 phase _ rest _ (omega (arith, h)) ∙ bytes_last 32 proof rest _ p
