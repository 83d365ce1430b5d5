-- ===== src/Wire/Codec/Building.antt =====
-- What the builder has written when it succeeds.
use gtp_rs.Base.{
  ℕ, ◌<◌, ◌≡◌, refl, sym, ap, ◌∙◌, arith, ltb, ◌==◌, not, ◌*◌, ◌^◌, max, bit_and, bit_or, bit,
  bit_and_pow, bit-bit_or, bit-pow_ne, bit_or-lt, if◌then◌else◌, Bool, Bool-cases, true, false, inl,
  inr, List, [], ◌∷◌, ◌++◌, length, append_assoc, append-nil,
}
use gtp_rs.Types.Errors.{Result, ok, ◌>>=◌, bind-ok, ok-injective, guard-ok}
use gtp_rs.Wire.Frame.{Frame}
use gtp_rs.Wire.Encode.{encode}
use gtp_rs.Wire.Header.{PacketHeader, min_len, set_ack_present, is_long_header}
use gtp_rs.Wire.Header
use gtp_rs.Wire.Codec.{PacketBuilder, new, append_frame, finish, is_ack, remaining_capacity}
use gtp_rs.Wire.Codec.Reading.{AreWritten}

unfoldable pub append_all : PacketBuilder → List Frame → Result PacketBuilder
append_all b [] = ok b
append_all b (f ∷ fs) = do b ← append_frame b f; append_all b fs

-- The flags of the header after frames were appended.
abbrev pub flags_after : ℕ → List Frame → ℕ
flags_after flags [] = flags
flags_after flags (f ∷ fs) = flags_after (if is_ack f then set_ack_present flags true else flags) fs

append_frame-ok :
    (b b' : PacketBuilder) (f : Frame)
    → append_frame b f ≡ ok b'
    → (written : List ℕ) × (encode (remaining_capacity b) f ≡ ok written)
      × (b' ≡ record b {
        payload = b.payload ++ written;
        header =
            if is_ack f
            then record b.header { flags = set_ack_present b.header.flags true }
            else b.header;
      })
unfolding append_frame
append_frame-ok b b' f h =
    let (written, e, same) = bind-ok (encode (remaining_capacity b) f) _ b' h in
    (written, e, sym (ok-injective _ _ same))

-- The builder after a frame, ready for the others.
appended :
    (b : PacketBuilder) (acks : Bool) (fs : List Frame) (written tail : List ℕ)
    → (let header : PacketHeader =
          if acks
          then record b.header { flags = set_ack_present b.header.flags true }
          else b.header in
        record b {
          payload = (b.payload ++ written) ++ tail;
          header = record header { flags = flags_after header.flags fs };
        })
      ≡ record b {
        payload = b.payload ++ (written ++ tail);
        header = record b.header {
          flags =
              flags_after (if acks then set_ack_present b.header.flags true else b.header.flags) fs;
        };
      }
appended b true fs written tail = rw (append_assoc b.payload written tail) refl
appended b false fs written tail = rw (append_assoc b.payload written tail) refl

pub append_all-AreWritten :
    (b b' : PacketBuilder) (fs : List Frame)
    → append_all b fs ≡ ok b'
    → (tail : List ℕ) × AreWritten fs tail
      × (b' ≡ record b {
        payload = b.payload ++ tail;
        header = record b.header { flags = flags_after b.header.flags fs };
      })
unfolding append_all
append_all-AreWritten b b' [] h = (
  [],
  refl,
  sym (ok-injective b b' h) ∙ ap (λ p. record b { payload = p }) (sym (append-nil b.payload)),
)
append_all-AreWritten b b' (f ∷ fs) h =
    let (mid, first, rest) = bind-ok (append_frame b f) (λ c. append_all c fs) b' h in
    let (written, e, same) = append_frame-ok b mid f first in
    let (tail, ws, end) = append_all-AreWritten mid b' fs rest in
    (
      written ++ tail,
      (remaining_capacity b, written, tail, e, refl, ws),
      end
          ∙ ap {A = PacketBuilder}
              (λ m. record m {
                payload = m.payload ++ tail;
                header = record m.header { flags = flags_after m.header.flags fs };
              })
              same
          ∙ appended b (is_ack f) fs written tail,
    )

-- The flag of an ACK leaves the form of the header as it is.
set_ack_present-is_long_header :
    (flags : ℕ) → is_long_header (set_ack_present flags true) ≡ is_long_header flags
unfolding set_ack_present is_long_header
set_ack_present-is_long_header flags =
    let high : bit_and (bit_or flags (2 ^ 5)) (2 ^ 7) ≡ bit_and flags (2 ^ 7) =
      bit_and_pow 7 (bit_or flags (2 ^ 5))
      ∙ ap (λ (n : ℕ). n * 2 ^ 7)
          (bit-bit_or 7 flags (2 ^ 5)
            ∙ ap (max (bit flags 7)) (bit-pow_ne 5 7 (λ e. omega (arith, e))))
      ∙ ap (λ (n : ℕ). n * 2 ^ 7) (max_zero (bit flags 7))
      ∙ sym (bit_and_pow 7 flags) in
    ap (λ (n : ℕ). not (n == 0)) high
  where
    max_zero : (n : ℕ) → max n 0 ≡ n
    max_zero n = omega arith

pub flags_after-is_long_header :
    (flags : ℕ) (fs : List Frame) → is_long_header (flags_after flags fs) ≡ is_long_header flags
flags_after-is_long_header flags [] = refl
flags_after-is_long_header flags (f ∷ fs) = elim (Bool-cases (is_ack f)) [
  | inl acks ↦ rw acks (
      flags_after-is_long_header (set_ack_present flags true) fs
      ∙ set_ack_present-is_long_header flags)
  | inr other ↦ rw other (flags_after-is_long_header flags fs)
]

pub flags_after-lt : (flags : ℕ) (fs : List Frame) → flags < 2 ^ 8 → flags_after flags fs < 2 ^ 8
unfolding set_ack_present
flags_after-lt flags [] h = h
flags_after-lt flags (f ∷ fs) h = elim (Bool-cases (is_ack f)) [
  | inl acks ↦
      rw acks (flags_after-lt (bit_or flags 0x20) fs (bit_or-lt 8 flags 0x20 h (omega arith)))
  | inr other ↦ rw other (flags_after-lt flags fs h)
]

-- The source's use of the builder: a new one, the frames, and the end.
unfoldable pub packet : ℕ → PacketHeader → List Frame → Result (List ℕ)
packet capacity header frames = do b ← new capacity header; b ← append_all b frames; finish b

pub new-ok :
    (capacity : ℕ) (header : PacketHeader) (b : PacketBuilder)
    → new capacity header ≡ ok b
    → (header.header_len ≡ min_len header.flags)
      × (b ≡ record {
        capacity = capacity;
        header = header;
        header_len = min_len header.flags;
        payload = [];
      })
unfolding new
new-ok capacity header b h =
    let (roomy, checks) = guard-ok (ltb capacity (min_len header.flags)) _ _ b h in
    let (agrees, made) = guard-ok (not (header.header_len == min_len header.flags)) _ _ b checks in
    (ground (arith, agrees), sym (ok-injective _ _ made))

pub finish-ok :
    (b : PacketBuilder) (datagram : List ℕ)
    → finish b ≡ ok datagram
    → (length b.payload < 2 ^ 16)
      × (head : List ℕ) × (Header.encode
            (record b.header { payload_len = length b.payload })
            b.header_len
          ≡ ok head)
      × (datagram ≡ head ++ b.payload)
unfolding finish
finish-ok b datagram h =
    let (short, chain) = guard-ok (ltb 65535 (length b.payload)) _ _ datagram h in
    let (head, e, same) =
      bind-ok (Header.encode (record b.header { payload_len = length b.payload }) b.header_len) _
        datagram chain in
    (ground (arith, short), head, e, sym (ok-injective _ _ same))
