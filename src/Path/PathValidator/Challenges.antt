-- ===== src/Path/PathValidator/Challenges.antt =====
-- A challenge validates a path once, from the challenged address, with the right nonce, in time.
use gtp_rs.Base.{
  ℕ, suc, ◌+◌, ◌≤◌, ◌≡◌, refl, arith, Bool, true, if◌then◌else◌, Option, none, some, List, [], ◌∷◌,
  inl, inr, Bool-cases, leb→le, leb, bytes_eq, bytes_eq→eq, ◌&&◌,
}
use gtp_rs.Types.Time.{duration_since}
use gtp_rs.Path.PathValidator.{
  PathValidator, Challenge, path_challenge_timeout, start_challenge, expire, validate_response,
  answered,
}

pub data Event (Addr : Type 0) : Type 0 where
  challenge : Addr → List ℕ → ℕ → Event Addr
  tick : ℕ → Event Addr
  response : Addr → List ℕ → ℕ → Event Addr

module _ {Addr : Type 0} (addr_eq : Addr → Addr → Bool) where
  -- The challenge that a response validates.
  abbrev pub Validates : Option (Challenge Addr) → Addr → List ℕ → ℕ → Type 0
  Validates none addr response_data now = ⊥
  Validates (some c) addr response_data now =
      (addr_eq addr c.addr ≡ true)
      × (response_data ≡ c.nonce)
      × (now ≤ c.start_time + path_challenge_timeout)

  answered-Validates :
      (o : Option (Challenge Addr)) (addr : Addr) (response_data : List ℕ) (now : ℕ)
      → answered addr_eq o addr response_data now ≡ true
      → Validates o addr response_data now
  answered-Validates none addr response_data now h = cc
  answered-Validates (some c) addr response_data now h =
      let tests : addr_eq addr c.addr
            && (bytes_eq response_data c.nonce
                && leb (duration_since now c.start_time) path_challenge_timeout)
          ≡ true =
        h in
      let a : addr_eq addr c.addr ≡ true = ground arith in
      let b : bytes_eq response_data c.nonce ≡ true = ground arith in
      let t : leb (duration_since now c.start_time) path_challenge_timeout ≡ true = ground arith in
      (a, bytes_eq→eq response_data c.nonce b, omega (arith, leb→le _ _ t))

  -- A response is accepted only from the challenged address, with the nonce of the outstanding
  -- challenge and within its timeout, and then no challenge is outstanding any more.
  pub validate_response_sound :
      (v : PathValidator Addr) (addr : Addr) (response_data : List ℕ) (now : ℕ)
      → (validate_response addr_eq v addr response_data now).0 ≡ true
      → Validates v.pending_challenge addr response_data now
        × ((validate_response addr_eq v addr response_data now).1.pending_challenge ≡ none)
  unfolding validate_response
  validate_response_sound v addr response_data now h =
      elim (Bool-cases (answered addr_eq v.pending_challenge addr response_data now)) [
        | inl ok ↦ (answered-Validates v.pending_challenge addr response_data now ok, rw ok refl)
        | inr other ↦ cc
      ]

  abbrev pub step : PathValidator Addr → Event Addr → PathValidator Addr
  step v (challenge addr nonce now) = start_challenge addr_eq v addr nonce now
  step v (tick now) = expire addr_eq v now
  step v (response addr bytes now) = (validate_response addr_eq v addr bytes now).1

  -- The responses accepted in a run, and the challenges started in it.
  abbrev pub accepted_now : PathValidator Addr → Event Addr → ℕ
  accepted_now v (challenge addr nonce now) = 0
  accepted_now v (tick now) = 0
  accepted_now v (response addr bytes now) =
      if (validate_response addr_eq v addr bytes now).0 then 1 else 0

  abbrev pub accepted : PathValidator Addr → List (Event Addr) → ℕ
  accepted v [] = 0
  accepted v (e ∷ es) = accepted_now v e + accepted (step v e) es

  abbrev pub started : List (Event Addr) → ℕ
  started [] = 0
  started (challenge addr nonce now ∷ es) = suc (started es)
  started (tick now ∷ es) = started es
  started (response addr bytes now ∷ es) = started es

  abbrev pub outstanding : Option (Challenge Addr) → ℕ
  outstanding none = 0
  outstanding (some c) = 1

  pending-outstanding :
      (o : Option (Challenge Addr)) (e : Event Addr)
      → accepted_now (record { pending_challenge = o }) e
          + outstanding (step (record { pending_challenge = o }) e).pending_challenge
        ≤ outstanding o + started (e ∷ [])
  unfolding start_challenge expire validate_response
  pending-outstanding none (challenge addr nonce now) = omega arith
  pending-outstanding (some c) (challenge addr nonce now) = omega arith
  pending-outstanding none (tick now) = omega arith
  pending-outstanding (some c) (tick now) = ground arith
  pending-outstanding none (response addr bytes now) = omega arith
  pending-outstanding (some c) (response addr bytes now) = ground arith

  step-outstanding :
      (v : PathValidator Addr) (e : Event Addr)
      → accepted_now v e + outstanding (step v e).pending_challenge
        ≤ outstanding v.pending_challenge + started (e ∷ [])
  step-outstanding v e = pending-outstanding v.pending_challenge e

  started_cons :
      (e : Event Addr) (es : List (Event Addr)) → started (e ∷ es) ≡ started (e ∷ []) + started es
  started_cons (challenge addr nonce now) es = omega arith
  started_cons (tick now) es = omega arith
  started_cons (response addr bytes now) es = omega arith

  -- In every sequence of challenges, timer ticks and responses, at most as many responses are
  -- accepted as challenges were started (one more where one was outstanding): a nonce validates once.
  pub accepted_le :
      (es : List (Event Addr)) (v : PathValidator Addr)
      → accepted v es ≤ outstanding v.pending_challenge + started es
  accepted_le [] v = omega arith
  accepted_le (e ∷ es) v =
      omega (arith, accepted_le es (step v e), step-outstanding v e, started_cons e es)
