-- ===== src/Path/PathValidator.antt =====
-- crates/gtp-path/src/path_validator.rs: one outstanding PATH_CHALLENGE.
-- The standard library's socket address is a type with an equality test.
pub mod Challenges
pub mod History
mod Examples
use gtp_rs.Base.{
  ℕ, ltb, leb, Bool, true, false, ◌&&◌, if◌then◌else◌, Option, none, some, List, bytes_eq,
}
use gtp_rs.Types.Time.{from_secs, duration_since}

abbrev pub path_challenge_timeout : ℕ
path_challenge_timeout = from_secs 3

pub record Challenge (Addr : Type 0) : Type 0 where
  pub addr : Addr
  pub nonce : List ℕ
  pub start_time : ℕ

pub record PathValidator (Addr : Type 0) : Type 0 where
  pub pending_challenge : Option (Challenge Addr)

module _ {Addr : Type 0} (addr_eq : Addr → Addr → Bool) where
  unfoldable pub new : PathValidator Addr
  new = record { pending_challenge = none }

  unfoldable pub start_challenge : PathValidator Addr → Addr → List ℕ → ℕ → PathValidator Addr
  start_challenge v new_addr nonce now = record {
    pending_challenge = some (record { addr = new_addr; nonce = nonce; start_time = now });
  }

  abbrev pub kept : Option (Challenge Addr) → ℕ → Option (Challenge Addr)
  kept none now = none
  kept (some c) now =
      if ltb path_challenge_timeout (duration_since now c.start_time) then none else some c

  unfoldable pub expire : PathValidator Addr → ℕ → PathValidator Addr
  expire v now = record { pending_challenge = kept v.pending_challenge now }

  abbrev pub addr_of : Option (Challenge Addr) → Option Addr
  addr_of none = none
  addr_of (some c) = some c.addr

  unfoldable pub pending_addr : PathValidator Addr → Option Addr
  pending_addr v = addr_of v.pending_challenge

  -- The three tests of a response.
  abbrev pub matches : Challenge Addr → Addr → List ℕ → ℕ → Bool
  matches c addr response_data now =
      addr_eq addr c.addr
      && (bytes_eq response_data c.nonce
          && leb (duration_since now c.start_time) path_challenge_timeout)

  abbrev pub answered : Option (Challenge Addr) → Addr → List ℕ → ℕ → Bool
  answered none addr response_data now = false
  answered (some c) addr response_data now = matches c addr response_data now

  unfoldable pub validate_response :
      PathValidator Addr → Addr → List ℕ → ℕ → Bool × PathValidator Addr
  validate_response v addr response_data now =
      if answered v.pending_challenge addr response_data now
      then (true, record { pending_challenge = none })
      else (false, v)
