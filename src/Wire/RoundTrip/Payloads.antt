-- ===== src/Wire/RoundTrip/Payloads.antt =====
-- The frames that carry a payload are read back.
use gtp_rs.Base.{
  ℕ, ◌<◌, ◌^◌, ◌%◌, ◌/◌, ◌≡◌, refl, ap, ◌∙◌, arith, List, ◌∷◌, ◌++◌, length, drop, to_be_bytes,
  from_be_bytes, from_be-to_be_bytes,
}
use gtp_rs.Types.Errors.{ok}
use gtp_rs.Types.Serial.{to_u48, from_u48}
use gtp_rs.Types.Serial.Order.{IsStateKey, to_u48-lt, from_u48-to_u48}
use gtp_rs.Wire.Frame.{DataFields, ReliableFields, RetxFields, data_frame, reliable_data, retx}
use gtp_rs.Wire.Reader.{uint_step, bytes_step, bytes_last}
use gtp_rs.Wire.Encode.{data_body, reliable_body, retx_body}
use gtp_rs.Wire.Decode.{decode_data, decode_reliable, decode_retx}

-- The ranges of the fields' Rust types.
abbrev pub IsReliable : ReliableFields → Type 0
IsReliable r =
    (r.message_id < 2 ^ 64)
    × (r.fragment_id < 2 ^ 16)
    × (r.total_fragments < 2 ^ 16)
    × (r.group_id < 2 ^ 16)
    × (r.order_seq < 2 ^ 32)

pub decode_reliable-append :
    (r : ReliableFields) (rest : List ℕ)
    → IsReliable r
    → length r.payload < 2 ^ 16
    → decode_reliable (reliable_body r ++ rest) ≡ ok (reliable_data r, rest)
unfolding decode_reliable reliable_body
decode_reliable-append r rest h l =
    uint_step 8 r.message_id _ rest _ (omega (arith, h.0))
    ∙ uint_step 2 r.fragment_id _ rest _ (omega (arith, h.1))
    ∙ uint_step 2 r.total_fragments _ rest _ (omega (arith, h.2))
    ∙ uint_step 2 r.group_id _ rest _ (omega (arith, h.3))
    ∙ uint_step 4 r.order_seq _ rest _ (omega (arith, h.4))
    ∙ uint_step 2 (length r.payload) _ rest _ (omega (arith, l))
    ∙ bytes_last _ r.payload rest _ refl

abbrev pub IsRetx : RetxFields → Type 0
IsRetx r = (r.message_id < 2 ^ 64) × (r.fragment_id < 2 ^ 16) × (r.transmission_id < 2 ^ 8)

pub decode_retx-append :
    (r : RetxFields) (rest : List ℕ)
    → IsRetx r
    → length r.payload < 2 ^ 16
    → decode_retx (retx_body r ++ rest) ≡ ok (retx r, rest)
unfolding decode_retx retx_body
decode_retx-append r rest h l =
    uint_step 8 r.message_id _ rest _ (omega (arith, h.0))
    ∙ uint_step 2 r.fragment_id _ rest _ (omega (arith, h.1))
    ∙ uint_step 1 r.transmission_id _ rest _ (omega (arith, h.2))
    ∙ uint_step 2 (length r.payload) _ rest _ (omega (arith, l))
    ∙ bytes_last _ r.payload rest _ refl

abbrev pub IsData : DataFields → Type 0
IsData d =
    (d.message_id < 2 ^ 64)
    × IsStateKey d.state_key
    × (d.sequence < 2 ^ 32)
    × (d.generation < 2 ^ 32)
    × (d.deadline_ms < 2 ^ 16)

-- The two bytes of a state key that are not sent are 0.
key_slice : (v : ℕ) → v < 2 ^ 48 → 0 ∷ 0 ∷ drop 2 (to_be_bytes 8 v) ≡ to_be_bytes 8 v
unfolding to_be_bytes
key_slice v h =
    let high : v / 256 / 256 / 256 / 256 / 256 / 256 / 256 % 256 ≡ 0 = omega arith in
    let next : v / 256 / 256 / 256 / 256 / 256 / 256 % 256 ≡ 0 = omega arith in rw (high, next) refl

pub decode_data-append :
    (d : DataFields) (rest : List ℕ)
    → IsData d
    → length d.payload < 2 ^ 16
    → decode_data (data_body d ++ rest) ≡ ok (data_frame d, rest)
unfolding decode_data data_body
decode_data-append d rest h l =
    uint_step 8 d.message_id _ rest _ (omega (arith, h.0))
    ∙ bytes_step 6 (drop 2 (to_be_bytes 8 (to_u48 d.state_key))) _ rest _
        (unfold to_be_bytes in refl)
    ∙ uint_step 4 d.sequence _ rest _ (omega (arith, h.2))
    ∙ uint_step 4 d.generation _ rest _ (omega (arith, h.3))
    ∙ uint_step 2 d.deadline_ms _ rest _ (omega (arith, h.4))
    ∙ uint_step 2 (length d.payload) _ rest _ (omega (arith, l))
    ∙ bytes_last _ d.payload rest _ refl
    ∙ ap (λ k. ok (data_frame (record d { state_key = k }), rest)) key
  where
    key :
        from_u48 (from_be_bytes (0 ∷ 0 ∷ drop 2 (to_be_bytes 8 (to_u48 d.state_key)))) ≡ d.state_key
    key =
        ap (λ bs. from_u48 (from_be_bytes bs))
          (key_slice (to_u48 d.state_key) (to_u48-lt d.state_key h.1))
        ∙ ap from_u48
            (from_be-to_be_bytes 8 (to_u48 d.state_key) (omega (arith, to_u48-lt d.state_key h.1)))
        ∙ from_u48-to_u48 d.state_key h.1
