-- ===== src/Wire/Reader.antt =====
-- The bounds-checked readers of crates/gtp-wire/src/frame.rs. The source keeps the whole buffer
-- and an offset; a reader here takes and returns the bytes from the offset on, whose number is
-- the `buf.len() - offset` of the error.
use gtp_rs.Base.{
  ℕ, ◌≡◌, ◌<◌, ◌^◌, refl, subst, ltb, if◌then◌else◌, List, ◌++◌, length, take, drop, from_be_bytes,
  to_be_bytes, arith, length-append, length-to_be_bytes, from_be-to_be_bytes, append_assoc,
  take-length-append, drop-length-append,
}
use gtp_rs.Types.Errors.{Result, ok, err, ◌>>=◌, truncated_frame}

unfoldable pub read_bytes : ℕ → List ℕ → Result (List ℕ × List ℕ)
read_bytes len buf =
    if ltb (length buf) len
    then err (truncated_frame len (length buf))
    else ok (take len buf, drop len buf)

unfoldable pub read_uint : ℕ → List ℕ → Result (ℕ × List ℕ)
read_uint len buf = do (bytes, rest) ← read_bytes len buf; ok (from_be_bytes bytes, rest)

abbrev pub read_u8 : List ℕ → Result (ℕ × List ℕ)
read_u8 = read_uint 1

abbrev pub read_u16 : List ℕ → Result (ℕ × List ℕ)
read_u16 = read_uint 2

abbrev pub read_u32 : List ℕ → Result (ℕ × List ℕ)
read_u32 = read_uint 4

abbrev pub read_u64 : List ℕ → Result (ℕ × List ℕ)
read_u64 = read_uint 8

pub read_bytes-append :
    (n : ℕ) (bs rest : List ℕ) → length bs ≡ n → read_bytes n (bs ++ rest) ≡ ok (bs, rest)
unfolding read_bytes
read_bytes-append n bs rest h =
    subst (λ k. read_bytes k (bs ++ rest) ≡ ok (bs, rest)) h
      (rw (take-length-append bs rest, drop-length-append bs rest)
        (ground (arith, length-append bs rest)))

pub read_uint-append :
    (n v : ℕ) (rest : List ℕ) → v < 256 ^ n → read_uint n (to_be_bytes n v ++ rest) ≡ ok (v, rest)
unfolding read_uint
read_uint-append n v rest h =
    rw
      (
        read_bytes-append n (to_be_bytes n v) rest (length-to_be_bytes n v),
        from_be-to_be_bytes n v h,
      )
      refl

-- One reader in a chain of them: the bytes it takes stand first, or are all there is.
module _ {ℓ} {B : Type ℓ} where
  pub uint_last :
      (n v : ℕ) (rest : List ℕ) (f : (ℕ × List ℕ) → Result B)
      → v < 256 ^ n
      → (read_uint n (to_be_bytes n v ++ rest) >>= f) ≡ f (v, rest)
  uint_last n v rest f h = rw (read_uint-append n v rest h) refl

  pub uint_step :
      (n v : ℕ) (more rest : List ℕ) (f : (ℕ × List ℕ) → Result B)
      → v < 256 ^ n
      → (read_uint n ((to_be_bytes n v ++ more) ++ rest) >>= f) ≡ f (v, more ++ rest)
  uint_step n v more rest f h =
      rw (append_assoc (to_be_bytes n v) more rest) (uint_last n v (more ++ rest) f h)

  pub bytes_last :
      (n : ℕ) (bs rest : List ℕ) (f : (List ℕ × List ℕ) → Result B)
      → length bs ≡ n
      → (read_bytes n (bs ++ rest) >>= f) ≡ f (bs, rest)
  bytes_last n bs rest f h = rw (read_bytes-append n bs rest h) refl

  pub bytes_step :
      (n : ℕ) (bs more rest : List ℕ) (f : (List ℕ × List ℕ) → Result B)
      → length bs ≡ n
      → (read_bytes n ((bs ++ more) ++ rest) >>= f) ≡ f (bs, more ++ rest)
  bytes_step n bs more rest f h =
      rw (append_assoc bs more rest) (bytes_last n bs (more ++ rest) f h)
