-- ===== src/Wire/Header/RoundTrip.antt =====
-- A header is read back from what is written.
use gtp_rs.Base.{
  ℕ, ◌≤◌, ◌<◌, ◌^◌, ◌≡◌, refl, sym, ap, subst, ◌∙◌, arith, ltb, ◌||◌, inl, inr, Bool-cases, Bool,
  true, false, Option, none, some, List, ◌∷◌, ◌++◌, length, take, drop, append_assoc, to_be_bytes,
  length-to_be_bytes, take-length-append, drop-length-append, from_be-to_be_bytes,
}
use gtp_rs.Types.Errors.{ok}
use gtp_rs.Wire.Header.{
  PacketHeader, is_long_header, min_len, version_or_default, tail_bytes, encode, field,
  decode_fields, decode_tail, decode,
}

field-append :
    (n v : ℕ) (rest : List ℕ) → v < 256 ^ n → field n (to_be_bytes n v ++ rest) ≡ (v, rest)
unfolding field
field-append n v rest h =
    let size = length-to_be_bytes n v in
    let front : take n (to_be_bytes n v ++ rest) ≡ to_be_bytes n v =
      subst (λ k. take k (to_be_bytes n v ++ rest) ≡ to_be_bytes n v) size
        (take-length-append (to_be_bytes n v) rest) in
    let back : drop n (to_be_bytes n v ++ rest) ≡ rest =
      subst (λ k. drop k (to_be_bytes n v ++ rest) ≡ rest) size
        (drop-length-append (to_be_bytes n v) rest) in
    rw (front, back, from_be-to_be_bytes n v h) refl

-- The fields have their Rust types, and there is a version exactly in a long header.
abbrev pub HasVersion : Bool → Option ℕ → Type 0
HasVersion true none = ⊥
HasVersion true (some version) = version < 2 ^ 32
HasVersion false version = version ≡ none

pub record IsHeader (h : PacketHeader) : Type 0 where
  pub flags_fit : h.flags < 2 ^ 8
  pub versioned : HasVersion (is_long_header h.flags) h.version
  pub len_fits : h.header_len < 2 ^ 8
  pub id_fits : h.connection_id < 2 ^ 64
  pub number_fits : h.packet_number < 2 ^ 64
  pub time_fits : h.timestamp_micros < 2 ^ 32
  pub payload_fits : h.payload_len < 2 ^ 16

decode_tail-append :
    (h : PacketHeader) (size : ℕ) (rest : List ℕ)
    → IsHeader h
    → min_len h.flags ≤ h.header_len
    → h.header_len ≤ size
    → decode_tail size h.flags h.version (tail_bytes h ++ rest) ≡ ok (h, h.header_len)
unfolding decode_tail decode_fields tail_bytes
decode_tail-append h size rest w low high =
    let b4 = to_be_bytes 2 h.payload_len in
    let b3 = to_be_bytes 4 h.timestamp_micros in
    let b2 = to_be_bytes 8 h.packet_number in
    let b1 = to_be_bytes 8 h.connection_id in
    let fine : (ltb h.header_len (min_len h.flags) || ltb size h.header_len) ≡ false =
      ground arith in
    rw
      (
        append_assoc (to_be_bytes 1 h.header_len) (b1 ++ (b2 ++ (b3 ++ b4))) rest,
        field-append 1 h.header_len ((b1 ++ (b2 ++ (b3 ++ b4))) ++ rest)
            (omega (arith, w.len_fits)),
        append_assoc b1 (b2 ++ (b3 ++ b4)) rest,
        field-append 8 h.connection_id ((b2 ++ (b3 ++ b4)) ++ rest) (omega (arith, w.id_fits)),
        append_assoc b2 (b3 ++ b4) rest,
        field-append 8 h.packet_number ((b3 ++ b4) ++ rest) (omega (arith, w.number_fits)),
        append_assoc b3 b4 rest,
        field-append 4 h.timestamp_micros (b4 ++ rest) (omega (arith, w.time_fits)),
        field-append 2 h.payload_len rest (omega (arith, w.payload_fits)),
        fine,
      )
      refl

long_form :
    (h : PacketHeader) (version : ℕ) (rest : List ℕ)
    → IsHeader h
    → is_long_header h.flags ≡ true
    → h.version ≡ some version
    → version < 2 ^ 32
    → min_len h.flags ≤ h.header_len
    → h.header_len ≤ length (h.flags ∷ ((to_be_bytes 4 version ++ tail_bytes h) ++ rest))
    → decode (h.flags ∷ ((to_be_bytes 4 version ++ tail_bytes h) ++ rest)) ≡ ok (h, h.header_len)
unfolding decode
long_form h version rest w long v fits low high =
    let size = length (h.flags ∷ ((to_be_bytes 4 version ++ tail_bytes h) ++ rest)) in
    let enough : ltb size (min_len h.flags) ≡ false = ground arith in
    let first : field 4 ((to_be_bytes 4 version ++ tail_bytes h) ++ rest)
        ≡ (version, tail_bytes h ++ rest) =
      ap (field 4) (append_assoc (to_be_bytes 4 version) (tail_bytes h) rest)
      ∙ field-append 4 version (tail_bytes h ++ rest) (omega (arith, fits)) in
    rw (enough, long, first, ← v) (decode_tail-append h size rest w low high)

short_form :
    (h : PacketHeader) (rest : List ℕ)
    → IsHeader h
    → is_long_header h.flags ≡ false
    → h.version ≡ none
    → min_len h.flags ≤ h.header_len
    → h.header_len ≤ length (h.flags ∷ (tail_bytes h ++ rest))
    → decode (h.flags ∷ (tail_bytes h ++ rest)) ≡ ok (h, h.header_len)
unfolding decode
short_form h rest w short v low high =
    let size = length (h.flags ∷ (tail_bytes h ++ rest)) in
    let enough : ltb size (min_len h.flags) ≡ false = ground arith in
    rw (enough, short, ← v) (decode_tail-append h size rest w low high)

encode-long :
    (h : PacketHeader) (capacity : ℕ) (bytes : List ℕ)
    → encode h capacity ≡ ok bytes
    → is_long_header h.flags ≡ true
    → h.flags ∷ (to_be_bytes 4 (version_or_default h.version) ++ tail_bytes h) ≡ bytes
unfolding encode
encode-long h capacity bytes e long = ground arith

encode-short :
    (h : PacketHeader) (capacity : ℕ) (bytes : List ℕ)
    → encode h capacity ≡ ok bytes
    → is_long_header h.flags ≡ false
    → h.flags ∷ tail_bytes h ≡ bytes
unfolding encode
encode-short h capacity bytes e short = ground arith

long_version :
    (version : Option ℕ)
    → HasVersion true version
    → (version ≡ some (version_or_default version)) × (version_or_default version < 2 ^ 32)
long_version none v = absurd v
long_version (some version) v = (refl, v)

-- A header with fields of their Rust types, and a version exactly where its flags say a long header,
-- is read back from what `encode` writes, whatever follows, with its `header_len` as the number of
-- bytes taken, if that is at least the size of the header and at most what is in the buffer.
pub decode-encode_header :
    (h : PacketHeader) (capacity : ℕ) (bytes rest : List ℕ)
    → IsHeader h
    → encode h capacity ≡ ok bytes
    → min_len h.flags ≤ h.header_len
    → h.header_len ≤ length (bytes ++ rest)
    → decode (bytes ++ rest) ≡ ok (h, h.header_len)
decode-encode_header h capacity bytes rest w e low high =
    elim (Bool-cases (is_long_header h.flags)) [
      | inl long ↦
          let (v, fits) =
            long_version h.version (subst (λ b. HasVersion b h.version) long w.versioned) in
          let same = encode-long h capacity bytes e long in
          subst (λ bs. decode (bs ++ rest) ≡ ok (h, h.header_len)) same
            (long_form h (version_or_default h.version) rest w long v fits low
              (subst (λ bs. h.header_len ≤ length (bs ++ rest)) (sym same) high))
      | inr short ↦
          let v = subst (λ b. HasVersion b h.version) short w.versioned in
          let same = encode-short h capacity bytes e short in
          subst (λ bs. decode (bs ++ rest) ≡ ok (h, h.header_len)) same
            (short_form h rest w short v low
              (subst (λ bs. h.header_len ≤ length (bs ++ rest)) (sym same) high))
    ]
