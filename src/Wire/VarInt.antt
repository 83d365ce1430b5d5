-- ===== src/Wire/VarInt.antt =====
-- crates/gtp-wire/src/varint.rs: variable-length integers. The buffer of `encode` is its length; the
-- result is the bytes written at its start.
pub mod RoundTrip
mod Examples
use gtp_rs.Base.{
  ℕ, zero, suc, ◌+◌, ◌-◌, ◌*◌, ◌/◌, ◌^◌, ltb, leb, ◌==◌, if◌then◌else◌, bit_and, bit_or, List, [],
  ◌∷◌, length, take, to_be_bytes, from_be_bytes,
}
use gtp_rs.Types.Errors.{Result, ok, err, buffer_too_short, invalid_packet}

abbrev pub max_value : ℕ
max_value = 2 ^ 62 - 1

-- One form: the bytes of the tagged value, where they fit.
abbrev pub put : ℕ → ℕ → ℕ → Result (List ℕ)
put capacity size tagged =
    if ltb capacity size then err buffer_too_short else ok (to_be_bytes size tagged)

unfoldable pub encode : ℕ → ℕ → Result (List ℕ)
encode val capacity =
    if leb val 63
    then put capacity 1 val
    else if leb val 16383
    then put capacity 2 (bit_or val 0x4000)
    else if leb val 1073741823
    then put capacity 4 (bit_or val 0x80000000)
    else if leb val max_value
    then put capacity 8 (bit_or val 0xc000000000000000)
    else err (invalid_packet "VarInt out of bounds")

abbrev pub get : List ℕ → ℕ → ℕ → Result (ℕ × ℕ)
get buf size mask =
    if ltb (length buf) size
    then err buffer_too_short
    else ok (bit_and (from_be_bytes (take size buf)) mask, size)

unfoldable pub decode : List ℕ → Result (ℕ × ℕ)
decode [] = err buffer_too_short
decode (b ∷ bs) =
    let prefix = b / 2 ^ 6 in
    if prefix == 0
    then ok (b, 1)
    else if prefix == 1
    then get (b ∷ bs) 2 0x3fff
    else if prefix == 2
    then get (b ∷ bs) 4 0x3fffffff
    else get (b ∷ bs) 8 0x3fffffffffffffff
