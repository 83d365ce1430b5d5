-- ===== src/Path/StatelessToken/Cookies.antt =====
-- Cookies verify exactly within their lifetime, and only those the server made.
use gtp_rs.Base.{
  ℕ, ◌+◌, ◌≤◌, ◌<◌, ◌^◌, ◌≡◌, sym, ap, subst, ◌∙◌, arith, Bool, true, false, List, ◌++◌, take, drop,
  length, All, All-take, ltb, if◌then◌else◌, bytes_eq, bytes_eq→eq, bytes_eq_refl, to_be_bytes,
  from_be_bytes, IsByte, length-to_be_bytes, from_be-to_be_bytes, to_be_bytes-from_be,
  take-length-append, drop-length-append, take-append-drop, length-take_le,
}
use gtp_rs.Types.Time.{duration_since}
use gtp_rs.Path.StatelessToken.{
  StatelessTokenManager, token_lifetime, mac, generate_cookie, verify_cookie,
}

module _ {Addr : Type 0} (hmac_sha256 : List ℕ → List ℕ → List ℕ) (to_string : Addr → List ℕ) where
  take-cookie : (t : ℕ) (rest : List ℕ) → take 8 (to_be_bytes 8 t ++ rest) ≡ to_be_bytes 8 t
  take-cookie t rest =
      subst (λ n. take n (to_be_bytes 8 t ++ rest) ≡ to_be_bytes 8 t) (length-to_be_bytes 8 t)
        (take-length-append (to_be_bytes 8 t) rest)

  drop-cookie : (t : ℕ) (rest : List ℕ) → drop 8 (to_be_bytes 8 t ++ rest) ≡ rest
  drop-cookie t rest =
      subst (λ n. drop n (to_be_bytes 8 t ++ rest) ≡ rest) (length-to_be_bytes 8 t)
        (drop-length-append (to_be_bytes 8 t) rest)

  -- A cookie made for an address at a time that fits a u64 verifies for that address from then on
  -- until the lifetime has passed.
  pub verify-generate :
      (m : StatelessTokenManager) (addr : Addr) (issued now : ℕ)
      → issued < 2 ^ 64
      → issued ≤ now
      → now ≤ issued + token_lifetime
      → verify_cookie hmac_sha256 to_string m addr
          (generate_cookie hmac_sha256 to_string m addr issued)
          now
        ≡ true
  unfolding verify_cookie generate_cookie
  verify-generate m addr issued now fits past fresh =
      let block = take 24 (mac hmac_sha256 to_string m addr (to_be_bytes 8 issued)) in
      let t : from_be_bytes (to_be_bytes 8 issued) ≡ issued =
        from_be-to_be_bytes 8 issued (omega arith) in
      rw (take-cookie issued block, drop-cookie issued block, t)
        (ground (arith, bytes_eq_refl block))

  verify_tests :
      (t now : ℕ) (same : Bool)
      → (if ltb now t
          then false
          else if ltb token_lifetime (duration_since now t)
          then false
          else same)
        ≡ true
      → (t ≤ now) × (now ≤ t + token_lifetime) × (same ≡ true)
  verify_tests t now same h = ground arith

  -- Every cookie of bytes that verifies is the one the server makes for that address at some time,
  -- not in the future and at most the lifetime ago.
  pub verify_cookie_sound :
      (m : StatelessTokenManager) (addr : Addr) (cookie : List ℕ) (now : ℕ)
      → All IsByte cookie
      → length cookie ≡ 32
      → verify_cookie hmac_sha256 to_string m addr cookie now ≡ true
      → (issued : ℕ) × (cookie ≡ generate_cookie hmac_sha256 to_string m addr issued)
        × (issued ≤ now)
        × (now ≤ issued + token_lifetime)
  unfolding verify_cookie generate_cookie
  verify_cookie_sound m addr cookie now bytes size h =
      let ts = take 8 cookie in
      let size8 : length ts ≡ 8 = length-take_le 8 cookie (omega arith) in
      let back : to_be_bytes 8 (from_be_bytes ts) ≡ ts =
        subst (λ n. to_be_bytes n (from_be_bytes ts) ≡ ts) size8
          (to_be_bytes-from_be ts (All-take IsByte 8 cookie bytes)) in
      let tests =
        verify_tests (from_be_bytes ts) now
          (bytes_eq (drop 8 cookie) (take 24 (mac hmac_sha256 to_string m addr ts))) h in
      let tail =
        bytes_eq→eq (drop 8 cookie) (take 24 (mac hmac_sha256 to_string m addr ts)) tests.2 in
      (
        from_be_bytes ts,
        rw back (sym (take-append-drop 8 cookie) ∙ ap (λ r. ts ++ r) tail),
        tests.0,
        tests.1,
      )
