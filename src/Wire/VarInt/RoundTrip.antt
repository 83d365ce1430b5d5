-- ===== src/Wire/VarInt/RoundTrip.antt =====
-- Every value below 2^62 is read back from what is written.
use gtp_rs.Base.{
  ℕ, ◌+◌, ◌/◌, ◌%◌, ◌^◌, ◌<◌, ◌≡◌, refl, sym, ap, subst, ◌∙◌, arith, ltb, leb, inl, inr, Bool-cases,
  false, bit_and, bit_or, bit_or_sum, bit_and_mask, List, ◌∷◌, ◌++◌, length, take, to_be_bytes,
  length-append, length-to_be_bytes, take-length-append, from_be-to_be_bytes,
}
use gtp_rs.Types.Errors.{ok, err, invalid_packet}
use gtp_rs.Wire.VarInt.{encode, decode, put, get, max_value}

get-to_be_bytes :
    (n w mask : ℕ) (rest : List ℕ)
    → w < 256 ^ n
    → get (to_be_bytes n w ++ rest) n mask ≡ ok (bit_and w mask, n)
get-to_be_bytes n w mask rest h =
    let size : length (to_be_bytes n w) ≡ n = length-to_be_bytes n w in
    let enough : ltb (length (to_be_bytes n w ++ rest)) n ≡ false =
      ground (arith, length-append (to_be_bytes n w) rest) in
    let whole : take n (to_be_bytes n w ++ rest) ≡ to_be_bytes n w =
      subst (λ k. take k (to_be_bytes n w ++ rest) ≡ to_be_bytes n w) size
        (take-length-append (to_be_bytes n w) rest) in
    rw (enough, whole, from_be-to_be_bytes n w h) refl

-- The two high bits of the first byte choose the form.
decode-two : (b : ℕ) (bs : List ℕ) → b / 2 ^ 6 ≡ 1 → decode (b ∷ bs) ≡ get (b ∷ bs) 2 0x3fff
unfolding decode
decode-two b bs h = rw h refl

decode-four : (b : ℕ) (bs : List ℕ) → b / 2 ^ 6 ≡ 2 → decode (b ∷ bs) ≡ get (b ∷ bs) 4 0x3fffffff
unfolding decode
decode-four b bs h = rw h refl

decode-eight :
    (b : ℕ) (bs : List ℕ) → b / 2 ^ 6 ≡ 3 → decode (b ∷ bs) ≡ get (b ∷ bs) 8 0x3fffffffffffffff
unfolding decode
decode-eight b bs h = rw h refl

form_two :
    (v : ℕ) (rest : List ℕ)
    → v < 2 ^ 14
    → decode (to_be_bytes 2 (bit_or v 0x4000) ++ rest) ≡ ok (v, 2)
unfolding to_be_bytes
form_two v rest h =
    let tagged : bit_or v 0x4000 ≡ v + 0x4000 = bit_or_sum 14 1 v h in
    let low : bit_and (v + 0x4000) 0x3fff ≡ v = bit_and_mask 14 (v + 0x4000) ∙ omega arith in
    rw tagged (
      decode-two ((v + 0x4000) / 256 % 256) ((v + 0x4000) % 256 ∷ rest) (omega arith)
      ∙ get-to_be_bytes 2 (v + 0x4000) 0x3fff rest (omega arith)
      ∙ ap (λ x. ok (x, 2)) low)

form_four :
    (v : ℕ) (rest : List ℕ)
    → v < 2 ^ 30
    → decode (to_be_bytes 4 (bit_or v 0x80000000) ++ rest) ≡ ok (v, 4)
unfolding to_be_bytes
form_four v rest h =
    let tagged : bit_or v 0x80000000 ≡ v + 0x80000000 = bit_or_sum 30 2 v h in
    let low : bit_and (v + 0x80000000) 0x3fffffff ≡ v =
      bit_and_mask 30 (v + 0x80000000) ∙ omega arith in
    rw tagged (
      decode-four ((v + 0x80000000) / 256 / 256 / 256 % 256) _ (omega arith)
      ∙ get-to_be_bytes 4 (v + 0x80000000) 0x3fffffff rest (omega arith)
      ∙ ap (λ x. ok (x, 4)) low)

form_eight :
    (v : ℕ) (rest : List ℕ)
    → v < 2 ^ 62
    → decode (to_be_bytes 8 (bit_or v 0xc000000000000000) ++ rest) ≡ ok (v, 8)
unfolding to_be_bytes
form_eight v rest h =
    let tagged : bit_or v 0xc000000000000000 ≡ v + 0xc000000000000000 = bit_or_sum 62 3 v h in
    let low : bit_and (v + 0xc000000000000000) 0x3fffffffffffffff ≡ v =
      bit_and_mask 62 (v + 0xc000000000000000) ∙ omega arith in
    rw tagged (
      decode-eight ((v + 0xc000000000000000) / 256 / 256 / 256 / 256 / 256 / 256 / 256 % 256) _
        (omega arith)
      ∙ get-to_be_bytes 8 (v + 0xc000000000000000) 0x3fffffffffffffff rest (omega arith)
      ∙ ap (λ x. ok (x, 8)) low)

put-ok : (capacity n w : ℕ) (bytes : List ℕ) → put capacity n w ≡ ok bytes → to_be_bytes n w ≡ bytes
put-ok capacity n w bytes h = ground arith

form_one : (v : ℕ) (rest : List ℕ) → v < 2 ^ 6 → decode (to_be_bytes 1 v ++ rest) ≡ ok (v, 1)
unfolding to_be_bytes decode
form_one v rest h =
    let byte : v % 256 ≡ v = omega arith in
    let prefix : v / 2 ^ 6 ≡ 0 = omega arith in rw (byte, prefix) refl

written :
    (val capacity n w : ℕ) (bytes rest : List ℕ)
    → put capacity n w ≡ ok bytes
    → decode (to_be_bytes n w ++ rest) ≡ ok (val, n)
    → decode (bytes ++ rest) ≡ ok (val, length bytes)
written val capacity n w bytes rest h k =
    let same = put-ok capacity n w bytes h in
    let size : n ≡ length bytes = sym (length-to_be_bytes n w) ∙ ap length same in
    subst (λ bs. decode (bs ++ rest) ≡ ok (val, length bytes)) same (k ∙ ap (λ m. ok (val, m)) size)

-- Whatever follows the bytes that `encode` writes, `decode` reads the value and their number back.
pub decode-encode_varint :
    (val capacity : ℕ) (bytes rest : List ℕ)
    → encode val capacity ≡ ok bytes
    → decode (bytes ++ rest) ≡ ok (val, length bytes)
unfolding encode
decode-encode_varint val capacity bytes rest h = elim (Bool-cases (leb val 63)) [
  | inl one ↦
      written val capacity 1 val bytes rest (rw one at h) (form_one val rest (ground (arith, one)))
  | inr over63 ↦ elim (Bool-cases (leb val 16383)) [
    | inl two ↦
        written val capacity 2 (bit_or val 0x4000) bytes rest (rw (over63, two) at h)
          (form_two val rest (ground (arith, two)))
    | inr over16383 ↦ elim (Bool-cases (leb val 1073741823)) [
      | inl four ↦
          written val capacity 4 (bit_or val 0x80000000) bytes rest
            (rw (over63, over16383, four) at h) (form_four val rest (ground (arith, four)))
      | inr large ↦ elim (Bool-cases (leb val max_value)) [
        | inl eight ↦
            written val capacity 8 (bit_or val 0xc000000000000000) bytes rest
              (rw (over63, over16383, large, eight) at h)
              (form_eight val rest (ground (arith, eight)))
        | inr refused ↦
            (let h' : err (invalid_packet "VarInt out of bounds") ≡ ok bytes =
                rw (over63, over16383, large, refused) at h in
              cc)
      ]
    ]
  ]
]
