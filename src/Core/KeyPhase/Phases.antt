-- ===== src/Core/KeyPhase/Phases.antt =====
-- The keys of a connection are those of its phase, whatever happens.
use gtp_rs.Base.{
  ℕ, zero, suc, ◌+◌, ◌^◌, ◌≤◌, ◌<◌, ◌≡◌, refl, sym, ap, ◌∙◌, subst, arith, ltb, ◌==◌, not, Bool,
  Bool-cases, true, false, inl, inr, List, [], ◌∷◌, ◌++◌, ◌-◌, length,
}
use gtp_rs.Core.Control.{out_key_update}
use gtp_rs.Core.KeyPhase.{
  KeyState, next_phase, is_some, in_grace, ratchet_session_key, ratchet_and_announce,
  flush_pending_ratchet, on_key_update, tick_rx_key_grace,
}

-- What may happen to the keys of a connection, in any order.
pub data Operation : Type 0 where
  ratchets : Operation
  announces : Operation
  flushes : Operation
  updated : ℕ → Operation
  ticks : Operation

abbrev pub odd : ℕ → Bool
odd zero = false
odd (suc n) = not (odd n)

next_phase-suc : (n : ℕ) → suc n < 2 ^ 64 → next_phase n ≡ suc n
next_phase-suc n h = omega arith

module _ {Key Iv : Type 0} (ratchet_key : Key → ℕ → ℕ → Key × Iv) where
  -- The key and the nonce base of a direction in a phase.
  abbrev pub chain : ℕ → Key × Iv → ℕ → Key × Iv
  chain cid start zero = start
  chain cid start (suc n) = ratchet_key (chain cid start n).0 cid (suc n)

  -- The next material of one direction.
  chain-next :
      (cid id n : ℕ) (start : Key × Iv) (key : Key) (iv : Iv)
      → suc n < 2 ^ 64
      → id ≡ cid
      → (key, iv) ≡ chain cid start n
      → ratchet_key key id (next_phase n) ≡ chain cid start (next_phase n)
  chain-next cid id n start key iv few same h =
      rw (next_phase-suc n few, same) (ap (λ (p : Key × Iv). ratchet_key p.0 cid (suc n)) h)

module _ {Addr Key Iv Protector : Type 0} (ratchet_key : Key → ℕ → ℕ → Key × Iv)
    (new_for_cid : Key → Iv → ℕ → Protector) where
  abbrev pub perform : KeyState Addr Key Iv Protector → Operation → KeyState Addr Key Iv Protector
  perform k ratchets = ratchet_session_key ratchet_key new_for_cid k
  perform k announces = (ratchet_and_announce k).0
  perform k flushes = flush_pending_ratchet ratchet_key new_for_cid k
  perform k (updated announced_phase) = on_key_update ratchet_key new_for_cid k announced_phase
  perform k ticks = tick_rx_key_grace k

  abbrev pub perform_all :
      KeyState Addr Key Iv Protector → List Operation → KeyState Addr Key Iv Protector
  perform_all k [] = k
  perform_all k (o ∷ ops) = perform_all (perform k o) ops

  -- The material is that of the phase, at most `bound`, and the ciphers are made of it.
  pub record InPhase (cid : ℕ) (tx rx : Key × Iv) (bound : ℕ) (k : KeyState Addr Key Iv Protector)
      : Type 0 where
    pub same_id : k.connection_id ≡ cid
    pub low : k.key_phase_counter ≤ bound
    pub sends : (k.tx_key, k.tx_iv) ≡ chain ratchet_key cid tx k.key_phase_counter
    pub receives : (k.rx_key, k.rx_iv) ≡ chain ratchet_key cid rx k.key_phase_counter
    pub seals : k.tx_protector ≡ new_for_cid k.tx_key k.tx_iv k.connection_id
    pub opens : k.rx_protector ≡ new_for_cid k.rx_key k.rx_iv k.connection_id
    pub parity : k.key_phase ≡ odd k.key_phase_counter

  ratchet-InPhase :
      (cid : ℕ) (tx rx : Key × Iv) (bound : ℕ) (k : KeyState Addr Key Iv Protector)
      → suc bound < 2 ^ 64
      → InPhase cid tx rx bound k
      → InPhase cid tx rx (suc bound) (ratchet_session_key ratchet_key new_for_cid k)
  unfolding ratchet_session_key
  ratchet-InPhase cid tx rx bound k few w = elim (Bool-cases (in_grace k)) [
    | inl open_window ↦ rw open_window (record {
      same_id = w.same_id;
      low = omega (arith, w.low);
      sends = w.sends;
      receives = w.receives;
      seals = w.seals;
      opens = w.opens;
      parity = w.parity;
    })
    | inr closed ↦
        let below : suc k.key_phase_counter < 2 ^ 64 = omega (arith, few, w.low) in
        rw closed (record {
          same_id = w.same_id;
          low = omega (arith, w.low, next_phase-suc k.key_phase_counter below);
          sends =
              chain-next ratchet_key cid k.connection_id k.key_phase_counter tx k.tx_key k.tx_iv
                below w.same_id w.sends;
          receives =
              chain-next ratchet_key cid k.connection_id k.key_phase_counter rx k.rx_key k.rx_iv
                below w.same_id w.receives;
          seals = refl;
          opens = refl;
          parity = ap not w.parity ∙ ap odd (sym (next_phase-suc k.key_phase_counter below));
        })
  ]

  later-InPhase :
      (cid : ℕ) (tx rx : Key × Iv) (bound : ℕ) (k : KeyState Addr Key Iv Protector)
      → InPhase cid tx rx bound k
      → InPhase cid tx rx (suc bound) k
  later-InPhase cid tx rx bound k w = record {
    same_id = w.same_id;
    low = omega (arith, w.low);
    sends = w.sends;
    receives = w.receives;
    seals = w.seals;
    opens = w.opens;
    parity = w.parity;
  }

  -- The fields of the invariant are untouched.
  unchanged-InPhase :
      (cid : ℕ) (tx rx : Key × Iv) (bound : ℕ) (k : KeyState Addr Key Iv Protector) (queue : _)
      (pending : Bool)
      → InPhase cid tx rx bound k
      → InPhase cid tx rx bound (record k { control_queue = queue; pending_ratchet = pending })
  unchanged-InPhase cid tx rx bound k queue pending w = record {
    same_id = w.same_id;
    low = w.low;
    sends = w.sends;
    receives = w.receives;
    seals = w.seals;
    opens = w.opens;
    parity = w.parity;
  }

  tick-InPhase :
      (cid : ℕ) (tx rx : Key × Iv) (bound : ℕ) (k : KeyState Addr Key Iv Protector)
      → InPhase cid tx rx bound k
      → InPhase cid tx rx bound (tick_rx_key_grace k)
  unfolding tick_rx_key_grace
  tick-InPhase cid tx rx bound k w = elim (Bool-cases (not (is_some k.rx_protector_prev))) [
    | inl idle ↦ rw idle w
    | inr open_window ↦ rw open_window (elim (Bool-cases (k.rx_prev_grace_packets - 1 == 0)) [
      | inl last ↦ rw last (record {
        same_id = w.same_id;
        low = w.low;
        sends = w.sends;
        receives = w.receives;
        seals = w.seals;
        opens = w.opens;
        parity = w.parity;
      })
      | inr more ↦ rw more (record {
        same_id = w.same_id;
        low = w.low;
        sends = w.sends;
        receives = w.receives;
        seals = w.seals;
        opens = w.opens;
        parity = w.parity;
      })
    ])
  ]

  perform-InPhase :
      (cid : ℕ) (tx rx : Key × Iv) (bound : ℕ) (k : KeyState Addr Key Iv Protector) (o : Operation)
      → suc bound < 2 ^ 64
      → InPhase cid tx rx bound k
      → InPhase cid tx rx (suc bound) (perform k o)
  unfolding ratchet_and_announce flush_pending_ratchet on_key_update
  perform-InPhase cid tx rx bound k ratchets few w = ratchet-InPhase cid tx rx bound k few w
  perform-InPhase cid tx rx bound k announces few w = elim (Bool-cases (in_grace k)) [
    | inl open_window ↦ rw (perform, open_window) (later-InPhase cid tx rx bound k w)
    | inr closed ↦
        rw (perform, closed)
          (later-InPhase cid tx rx bound _ (
            unchanged-InPhase cid tx rx bound k
              (k.control_queue ++ (out_key_update (next_phase k.key_phase_counter) ∷ [])) true w))
  ]
  perform-InPhase cid tx rx bound k flushes few w = elim (Bool-cases k.pending_ratchet) [
    | inl pending ↦ rw pending (
        ratchet-InPhase cid tx rx bound (record k { pending_ratchet = false }) few
          (unchanged-InPhase cid tx rx bound k k.control_queue false w))
    | inr none_pending ↦ rw none_pending (
        later-InPhase cid tx rx bound (record k { pending_ratchet = false })
          (unchanged-InPhase cid tx rx bound k k.control_queue false w))
  ]
  perform-InPhase cid tx rx bound k (updated announced_phase) few w =
      elim (Bool-cases (ltb k.key_phase_counter announced_phase)) [
        | inl newer ↦ rw newer (ratchet-InPhase cid tx rx bound k few w)
        | inr known ↦ rw known (later-InPhase cid tx rx bound k w)
      ]
  perform-InPhase cid tx rx bound k ticks few w =
      later-InPhase cid tx rx bound (tick_rx_key_grace k) (tick-InPhase cid tx rx bound k w)

  pub perform_all-InPhase :
      (cid : ℕ) (tx rx : Key × Iv) (bound : ℕ) (k : KeyState Addr Key Iv Protector)
      (ops : List Operation)
      → bound + length ops < 2 ^ 64
      → InPhase cid tx rx bound k
      → InPhase cid tx rx (bound + length ops) (perform_all k ops)
  perform_all-InPhase cid tx rx bound k [] few w =
      subst (λ b. InPhase cid tx rx b k) (bound_nil bound) w
    where
      bound_nil : (n : ℕ) → n ≡ n + 0
      bound_nil n = omega arith
  perform_all-InPhase cid tx rx bound k (o ∷ ops) few w =
      subst (λ b. InPhase cid tx rx b (perform_all (perform k o) ops)) (omega arith)
        (perform_all-InPhase cid tx rx (suc bound) (perform k o) ops (omega (arith, few))
          (perform-InPhase cid tx rx bound k o (omega (arith, few)) w))
