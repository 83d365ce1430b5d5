-- ===== src/Wire/VarInt/Examples.antt =====
-- The example of RFC 9000, section A.1: 15293 is written as 7b bd.
use gtp_rs.Base.{ℕ, ◌≡◌, refl, List, [], ◌∷◌, ◌++◌, length, to_be_bytes}
use gtp_rs.Types.Errors.{ok}
use gtp_rs.Wire.VarInt.{encode, decode}
use gtp_rs.Wire.VarInt.RoundTrip.{decode-encode_varint}

abbrev wire_bytes : List ℕ
wire_bytes = 0x7b ∷ 0xbd ∷ []

decode-encode_varint_example : decode (wire_bytes ++ (1 ∷ [])) ≡ ok (15293, length wire_bytes)
unfolding encode to_be_bytes
decode-encode_varint_example = decode-encode_varint 15293 8 wire_bytes (1 ∷ []) refl
