-- ===== src/Core/KeyPhase/Grace.antt =====
-- How long the key before a rotation is kept.
use gtp_rs.Base.{
  ℕ, zero, suc, ◌-◌, ◌≤◌, ◌<◌, ◌≡◌, refl, ap, ◌∙◌, arith, ◌==◌, Bool-cases, true, false, inl, inr,
  none, some,
}
use gtp_rs.Core.KeyPhase.{
  KeyState, rx_prev_key_grace_packets, next_phase, in_grace, rotated, ratchet_session_key,
  tick_rx_key_grace,
}

module _ {Addr Key Iv Protector : Type 0} where
  -- Datagrams that were received, each of which ages the window.
  abbrev pub tick_all : ℕ → KeyState Addr Key Iv Protector → KeyState Addr Key Iv Protector
  tick_all zero k = k
  tick_all (suc n) k = tick_all n (tick_rx_key_grace k)

  tick-last :
      (k : KeyState Addr Key Iv Protector) (old : Protector)
      → k.rx_protector_prev ≡ some old
      → k.rx_prev_grace_packets ≡ 1
      → (tick_rx_key_grace k).rx_protector_prev ≡ none
  unfolding tick_rx_key_grace
  tick-last k old held one =
      let over : (k.rx_prev_grace_packets - 1 == 0) ≡ true = ground (arith, one) in
      rw (held, over) refl

  tick-more :
      (k : KeyState Addr Key Iv Protector) (old : Protector)
      → k.rx_protector_prev ≡ some old
      → 1 < k.rx_prev_grace_packets
      → ((tick_rx_key_grace k).rx_protector_prev ≡ some old)
        × ((tick_rx_key_grace k).rx_prev_grace_packets ≡ k.rx_prev_grace_packets - 1)
  unfolding tick_rx_key_grace
  tick-more k old held more =
      let still : (k.rx_prev_grace_packets - 1 == 0) ≡ false = ground (arith, more) in
      rw (held, still) (refl, refl)

  tick-none :
      (k : KeyState Addr Key Iv Protector) → k.rx_protector_prev ≡ none → tick_rx_key_grace k ≡ k
  unfolding tick_rx_key_grace
  tick-none k gone = rw gone refl

  tick_all-none :
      (n : ℕ) (k : KeyState Addr Key Iv Protector)
      → k.rx_protector_prev ≡ none
      → (tick_all n k).rx_protector_prev ≡ none
  tick_all-none zero k gone = gone
  tick_all-none (suc n) k gone =
      tick_all-none n (tick_rx_key_grace k)
        (ap (λ (s : KeyState Addr Key Iv Protector). s.rx_protector_prev) (tick-none k gone) ∙ gone)

  tick_all-window :
      (n : ℕ) (k : KeyState Addr Key Iv Protector) (old : Protector)
      → k.rx_protector_prev ≡ some old
      → 0 < k.rx_prev_grace_packets
      → (n < k.rx_prev_grace_packets → (tick_all n k).rx_protector_prev ≡ some old)
        × (k.rx_prev_grace_packets ≤ n → (tick_all n k).rx_protector_prev ≡ none)
  tick_all-window zero k old held open_window =
      ((λ early. held), λ late. absurd (omega (arith, late, open_window)))
  tick_all-window (suc n) k old held open_window =
      elim (Bool-cases (k.rx_prev_grace_packets == 1)) [
        | inl last ↦
            let one : k.rx_prev_grace_packets ≡ 1 = ground (arith, last) in
            (
              (λ early. absurd (omega (arith, early, one))),
              λ late. tick_all-none n (tick_rx_key_grace k) (tick-last k old held one),
            )
        | inr more ↦
            let (kept, left) = tick-more k old held (ground (arith, more, open_window)) in
            let (early, late) =
              tick_all-window n (tick_rx_key_grace k) old kept
                (ground (arith, left, more, open_window)) in
            ((λ h. early (omega (arith, left, h))), λ h. late (omega (arith, left, h)))
      ]

module _ {Addr Key Iv Protector : Type 0} (ratchet_key : Key → ℕ → ℕ → Key × Iv)
    (new_for_cid : Key → Iv → ℕ → Protector) where
  pub ratchet-rotated :
      (k : KeyState Addr Key Iv Protector)
      → in_grace k ≡ false
      → ratchet_session_key ratchet_key new_for_cid k
        ≡ rotated ratchet_key new_for_cid k
            (ratchet_key k.tx_key k.connection_id (next_phase k.key_phase_counter))
            (ratchet_key k.rx_key k.connection_id (next_phase k.key_phase_counter))
  unfolding ratchet_session_key
  ratchet-rotated k closed = rw closed refl

  -- A rotation outside the grace window: the key that packets arrived under before is kept for the
  -- next 255 datagrams received, and gone from the 256th on.
  pub ratchet-grace :
      (k : KeyState Addr Key Iv Protector) (n : ℕ)
      → in_grace k ≡ false
      → let later = tick_all n (ratchet_session_key ratchet_key new_for_cid k) in
        (n < rx_prev_key_grace_packets → later.rx_protector_prev ≡ some k.rx_protector)
        × (rx_prev_key_grace_packets ≤ n → later.rx_protector_prev ≡ none)
  ratchet-grace k n closed = rw (ratchet-rotated k closed) (
      tick_all-window n
        (rotated ratchet_key new_for_cid k
          (ratchet_key k.tx_key k.connection_id (next_phase k.key_phase_counter))
          (ratchet_key k.rx_key k.connection_id (next_phase k.key_phase_counter)))
        k.rx_protector refl (omega arith))
