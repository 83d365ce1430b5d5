-- ===== src/Wire/Codec/Packet.antt =====
-- The frames put into a packet are the frames read out of it, behind the header of that packet.
use gtp_rs.Base.{
  ℕ, suc, ◌<◌, ◌≡◌, sym, ap, ◌∙◌, subst, arith, ltb, ◌^◌, if◌then◌else◌, Bool-cases, inl, inr, some,
  List, [], ◌++◌, map, length, drop, length-append, to_be_bytes, drop-length-append,
}
use gtp_rs.Types.Errors.{ok, bind-ok, ok-injective, guard-ok}
use gtp_rs.Wire.Frame.{Frame}
use gtp_rs.Wire.Header.{PacketHeader, min_len, set_ack_present, is_long_header}
use gtp_rs.Wire.Header
use gtp_rs.Wire.Header.RoundTrip.{IsHeader, HasVersion, decode-encode_header}
use gtp_rs.Wire.Codec.{new_iterator, PacketBuilder, new, finish}
use gtp_rs.Wire.Codec.Termination.{items}
use gtp_rs.Wire.Codec.Reading.{AreFrames, read_written}
use gtp_rs.Wire.Codec.Building.{
  append_all, flags_after, packet, append_all-AreWritten, flags_after-is_long_header,
  flags_after-lt, new-ok, finish-ok,
}

encode-length :
    (h : PacketHeader) (capacity : ℕ) (bytes : List ℕ)
    → Header.encode h capacity ≡ ok bytes
    → length bytes ≡ min_len h.flags
unfolding Header.encode Header.tail_bytes to_be_bytes
encode-length h capacity bytes e =
    let (roomy, form) = guard-ok (ltb capacity (min_len h.flags)) _ _ bytes e in
    elim (Bool-cases (is_long_header h.flags)) [
      | inl long ↦ let same = ok-injective _ _ (rw long at form) in rw long (ap length (sym same))
      | inr common ↦
          let same = ok-injective _ _ (rw common at form) in rw common (ap length (sym same))
    ]

-- The datagram of a header and a payload is taken apart again.
module _ (header : PacketHeader) (frames : List Frame) (head tail : List ℕ) (w : IsHeader header)
    (agrees : header.header_len ≡ min_len header.flags) (short : length tail < 2 ^ 16)
    (e : Header.encode
        (record header { flags = flags_after header.flags frames; payload_len = length tail })
        (min_len header.flags)
      ≡ ok head) where
  same_form : min_len (flags_after header.flags frames) ≡ min_len header.flags
  same_form = ap (λ long. if long then 28 else 24) (flags_after-is_long_header header.flags frames)

  head-length : length head ≡ header.header_len
  head-length = encode-length _ _ head e ∙ same_form ∙ sym agrees

  payload-tail : drop header.header_len (head ++ tail) ≡ tail
  payload-tail =
      subst (λ n. drop n (head ++ tail) ≡ tail) head-length (drop-length-append head tail)

  decode-head :
      Header.decode (head ++ tail)
      ≡ ok (
        record header { flags = flags_after header.flags frames; payload_len = length tail },
        header.header_len,
      )
  decode-head =
      decode-encode_header
        (record header { flags = flags_after header.flags frames; payload_len = length tail })
        (min_len header.flags) head tail
        (record {
          flags_fit = flags_after-lt header.flags frames w.flags_fit;
          versioned =
              subst (λ long. HasVersion long header.version)
                (sym (flags_after-is_long_header header.flags frames)) w.versioned;
          len_fits = w.len_fits;
          id_fits = w.id_fits;
          number_fits = w.number_fits;
          time_fits = w.time_fits;
          payload_fits = short;
        })
        e (omega (arith, same_form, agrees)) (omega (arith, length-append head tail, head-length))

-- With a header of fields of their Rust types and a version exactly where its flags say a long
-- header, and frames that each are read back where they stand:
-- when the builder makes a datagram of them, the header that it decodes to has the length of the
-- payload and the flag of an ACK where one was appended, and is otherwise the one given; it takes
-- the bytes up to the payload, and the iterator over the payload yields the frames and ends.
pub packet-read_back :
    (capacity : ℕ) (header : PacketHeader) (frames : List Frame) (datagram : List ℕ)
    → IsHeader header
    → AreFrames frames
    → packet capacity header frames ≡ ok datagram
    → let payload = drop header.header_len datagram in
      (Header.decode datagram
        ≡ ok (
          record header { flags = flags_after header.flags frames; payload_len = length payload },
          header.header_len,
        ))
      × (items (suc (length payload)) (new_iterator payload) ≡ some (map ok frames))
unfolding packet
packet-read_back capacity header frames datagram w i h =
    let (b, started, chain) = bind-ok (new capacity header) _ datagram h in
    let (c, appended_all, finished) = bind-ok (append_all b frames) finish datagram chain in
    let (agrees, fresh) = new-ok capacity header b started in
    let (tail, written, full) = append_all-AreWritten b c frames appended_all in
    let (short, head, e, whole) = finish-ok c datagram finished in
    let built : PacketBuilder = record {
      capacity = capacity;
      header = record header { flags = flags_after header.flags frames };
      header_len = min_len header.flags;
      payload = tail;
    } in
    let same : c ≡ built =
      full
      ∙ ap {A = PacketBuilder}
          (λ d. record d {
            payload = d.payload ++ tail;
            header = record d.header { flags = flags_after d.header.flags frames };
          })
          fresh in
    let encoded : Header.encode (record built.header { payload_len = length tail }) built.header_len
        ≡ ok head =
      subst
        (λ (d : PacketBuilder).
          Header.encode (record d.header { payload_len = length d.payload }) d.header_len ≡ ok head)
        same e in
    let parts : datagram ≡ head ++ tail =
      whole ∙ ap {A = PacketBuilder} (λ d. head ++ d.payload) same in
    let light : length tail < 2 ^ 16 =
      subst (λ (d : PacketBuilder). length d.payload < 2 ^ 16) same short in
    rw (parts, payload-tail header frames head tail w agrees light encoded)
      (
        decode-head header frames head tail w agrees light encoded,
        read_written (suc (length tail)) frames [] tail i written (omega arith),
      )
