-- ===== src/Path/PathValidator/History.antt =====
-- What an accepted response says of the history of the validator.
use gtp_rs.Base.{
  ℕ, ◌+◌, ◌≤◌, ◌≡◌, refl, ap, sym, arith, Bool, true, Option, none, some, List, [], ◌∷◌, ◌++◌, inl,
  inr, Bool-cases, Option-cases, subst,
}
use gtp_rs.Path.PathValidator.{
  PathValidator, Challenge, path_challenge_timeout, new, start_challenge, expire, validate_response,
  answered, kept,
}
use gtp_rs.Path.PathValidator.Challenges.{
  Event, challenge, tick, response, step, accepted_now, started, Validates, validate_response_sound,
}

module _ {Addr : Type 0} (addr_eq : Addr → Addr → Bool) where
  -- A new validator after some events, newest first.
  abbrev pub after_all : List (Event Addr) → PathValidator Addr
  after_all [] = new addr_eq
  after_all (e ∷ earlier) = step addr_eq (after_all earlier) e

  -- How many of the responses were accepted.
  abbrev pub accepted_of : List (Event Addr) → ℕ
  accepted_of [] = 0
  accepted_of (e ∷ earlier) = accepted_now addr_eq (after_all earlier) e + accepted_of earlier

  -- The challenge is the last one that was started, and no response was accepted since.
  pub record IsOpen (events : List (Event Addr)) (addr : Addr) (nonce : List ℕ) (start : ℕ)
      : Type 0 where
    pub before : List (Event Addr)
    pub since : List (Event Addr)
    pub split : events ≡ since ++ (challenge addr nonce start ∷ before)
    pub latest : started addr_eq since ≡ 0
    pub unanswered : accepted_of events ≡ accepted_of before

  kept-some :
      (o : Option (Challenge Addr)) (now : ℕ) (c : Challenge Addr)
      → kept addr_eq o now ≡ some c
      → o ≡ some c
  kept-some none now c h = cc
  kept-some (some d) now c h = ground arith

  response-open :
      (v : PathValidator Addr) (addr : Addr) (bytes : List ℕ) (now : ℕ) (c : Challenge Addr)
      → (validate_response addr_eq v addr bytes now).1.pending_challenge ≡ some c
      → (v.pending_challenge ≡ some c) × (accepted_now addr_eq v (response addr bytes now) ≡ 0)
  unfolding validate_response
  response-open v addr bytes now c h =
      elim (Bool-cases (answered addr_eq v.pending_challenge addr bytes now)) [
        | inl taken ↦ ground arith
        | inr other ↦ ground arith
      ]

  -- An event after which the same challenge is outstanding.
  IsOpen-later :
      (e : Event Addr) (earlier : List (Event Addr)) (addr : Addr) (nonce : List ℕ) (start : ℕ)
      → ((es : List (Event Addr)) → started addr_eq (e ∷ es) ≡ started addr_eq es)
      → accepted_now addr_eq (after_all earlier) e ≡ 0
      → IsOpen earlier addr nonce start
      → IsOpen (e ∷ earlier) addr nonce start
  IsOpen-later e earlier addr nonce start counts refused o = record {
    before = o.before;
    since = e ∷ o.since;
    split = ap (λ es. e ∷ es) o.split;
    latest = omega (arith, counts o.since, o.latest);
    unanswered = omega (arith, refused, o.unanswered);
  }

  pending-IsOpen :
      (events : List (Event Addr)) (c : Challenge Addr)
      → (after_all events).pending_challenge ≡ some c
      → IsOpen events c.addr c.nonce c.start_time
  unfolding new start_challenge expire
  pending-IsOpen [] c h = cc
  pending-IsOpen (challenge addr nonce now ∷ earlier) c h =
      let same : record { addr = addr; nonce = nonce; start_time = now } ≡ c = cc in
      subst
        (λ (d : Challenge Addr).
          IsOpen (challenge addr nonce now ∷ earlier) d.addr d.nonce d.start_time)
        same
        (record {
          before = earlier;
          since = [];
          split = refl;
          latest = refl;
          unanswered = omega arith;
        })
  pending-IsOpen (tick now ∷ earlier) c h =
      IsOpen-later (tick now) earlier c.addr c.nonce c.start_time (λ es. refl) refl
        (pending-IsOpen earlier c (kept-some (after_all earlier).pending_challenge now c h))
  pending-IsOpen (response addr bytes now ∷ earlier) c h =
      let (waiting, refused) = response-open (after_all earlier) addr bytes now c h in
      IsOpen-later (response addr bytes now) earlier c.addr c.nonce c.start_time (λ es. refl)
        refused (pending-IsOpen earlier c waiting)

  -- Where the equality test of addresses finds equal ones only: after any challenges, timer ticks
  -- and responses on a new validator, a response is accepted only if the last challenge that was
  -- started went to its address with the nonce that it carries, at most the timeout ago, and no
  -- response was accepted since; and then no challenge is outstanding any more.
  pub validate_response-IsOpen :
      (events : List (Event Addr)) (addr : Addr) (response_data : List ℕ) (now : ℕ)
      → ((a b : Addr) → addr_eq a b ≡ true → a ≡ b)
      → (validate_response addr_eq (after_all events) addr response_data now).0 ≡ true
      → ((start : ℕ) × IsOpen events addr response_data start
          × (now ≤ start + path_challenge_timeout))
        × ((after_all (response addr response_data now ∷ events)).pending_challenge ≡ none)
  validate_response-IsOpen events addr response_data now is_eq h =
      let (valid, cleared) =
        validate_response_sound addr_eq (after_all events) addr response_data now h in
      elim (Option-cases (after_all events).pending_challenge) [
        | inl idle ↦ absurd (subst (λ o. Validates addr_eq o addr response_data now) idle valid)
        | inr (c, waiting) ↦
            let (a, n, t) = subst (λ o. Validates addr_eq o addr response_data now) waiting valid in
            (
              (
                c.start_time,
                subst (λ bytes. IsOpen events addr bytes c.start_time) (sym n)
                    (subst (λ place. IsOpen events place c.nonce c.start_time)
                      (sym (is_eq addr c.addr a)) (pending-IsOpen events c waiting)),
                t,
              ),
              cleared,
            )
      ]
