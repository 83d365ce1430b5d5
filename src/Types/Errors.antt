-- ===== src/Types/Errors.antt =====
-- crates/gtp-types/src/error.rs: `TransportError` and `Result`.
use gtp_rs.Base.{ℕ, String, ◌≡◌, ◌⊎◌, inl, inr, refl, ap, Bool, true, false, if◌then◌else◌}

pub data TransportError : Type 0 where
  invalid_packet : String → TransportError
  buffer_too_short : TransportError
  buffer_overflow : TransportError
  authentication_failed : TransportError
  crypto_failure : TransportError
  truncated_frame : ℕ → ℕ → TransportError
  malformed_frame : String → TransportError
  replay_detected : TransportError
  protocol_violation : String → TransportError
  resource_limit_exceeded : String → TransportError
  payload_too_large : ℕ → TransportError
  path_validation_failed : TransportError
  timeout : TransportError
  handshake_timeout : TransportError
  handshake_failed : String → TransportError
  connection_closed : ℕ → TransportError
  message_expired : TransportError
  io : String → TransportError

pub data Result {ℓ} (A : Type ℓ) : Type ℓ where
  ok : A → Result A
  err : TransportError → Result A

-- `?` on a result: an error ends the function with that error.
infixl 5 ◌>>=◌
abbrev pub ◌>>=◌ {ℓ κ} : {A : Type ℓ} {B : Type κ} → Result A → (A → Result B) → Result B
err error >>= next = err error
ok value >>= next = next value

-- A chain that succeeds: so did its first part.
pub bind-ok {ℓ κ} :
    {A : Type ℓ} {B : Type κ} (r : Result A) (next : A → Result B) (v : B)
    → (r >>= next) ≡ ok v
    → (a : A) × (r ≡ ok a) × (next a ≡ ok v)
bind-ok (ok a) next v h = (a, refl, h)
bind-ok (err e) next v h = cc

pub ok-injective {ℓ} : {A : Type ℓ} (a b : A) → ok a ≡ ok b → a ≡ b
ok-injective a b h = ap (λ r. elim r [ ok x ↦ x | err e ↦ a ]) h

-- A guard that was passed.
pub guard-ok {ℓ} :
    {A : Type ℓ} (t : Bool) (e : TransportError) (r : Result A) (v : A)
    → (if t then err e else r) ≡ ok v
    → (t ≡ false) × (r ≡ ok v)
guard-ok true e r v h = cc
guard-ok false e r v h = (refl, h)

pub Result-cases {ℓ} :
    {A : Type ℓ} (r : Result A) → ((a : A) × (r ≡ ok a)) ⊎ ((e : TransportError) × (r ≡ err e))
Result-cases (ok a) = inl (a, refl)
Result-cases (err e) = inr (e, refl)
