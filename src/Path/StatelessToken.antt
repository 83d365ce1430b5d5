-- ===== src/Path/StatelessToken.antt =====
-- crates/gtp-path/src/stateless_token.rs: stateless cookies for source-address validation.
-- HMAC-SHA256 and the text of a socket address are arguments.
pub mod Cookies
mod Examples
use gtp_rs.Base.{
  ℕ, ltb, Bool, true, false, if◌then◌else◌, List, [], ◌∷◌, ◌++◌, take, drop, bytes_eq, to_be_bytes,
  from_be_bytes,
}
use gtp_rs.Types.Time.{from_secs, duration_since}

abbrev pub token_lifetime : ℕ
token_lifetime = from_secs 10

pub record StatelessTokenManager : Type 0 where
  pub secret : List ℕ

-- `GTP-COOKIE-V1`.
abbrev pub cookie_label : List ℕ
cookie_label = 71 ∷ 84 ∷ 80 ∷ 45 ∷ 67 ∷ 79 ∷ 79 ∷ 75 ∷ 73 ∷ 69 ∷ 45 ∷ 86 ∷ 49 ∷ []

module _ {Addr : Type 0} (hmac_sha256 : List ℕ → List ℕ → List ℕ) (to_string : Addr → List ℕ) where
  unfoldable pub mac : StatelessTokenManager → Addr → List ℕ → List ℕ
  mac m addr ts_bytes = hmac_sha256 m.secret (cookie_label ++ to_string addr ++ ts_bytes)

  unfoldable pub generate_cookie : StatelessTokenManager → Addr → ℕ → List ℕ
  generate_cookie m addr now =
      let ts_bytes = to_be_bytes 8 now in ts_bytes ++ take 24 (mac m addr ts_bytes)

  -- The constant-time comparison decides the equality of the byte strings.
  unfoldable pub verify_cookie : StatelessTokenManager → Addr → List ℕ → ℕ → Bool
  verify_cookie m addr cookie now =
      let ts_bytes = take 8 cookie in
      let token_time = from_be_bytes ts_bytes in
      if ltb now token_time
      then false
      else if ltb token_lifetime (duration_since now token_time)
      then false
      else bytes_eq (drop 8 cookie) (take 24 (mac m addr ts_bytes))
