-- ===== src/Core/KeyPhase/Announcing.antt =====
-- What the datagram after an announced rotation carries, and the key that its successors are sealed with.
use gtp_rs.Base.{ℕ, ◌≡◌, ◌⊎◌, refl, Bool, false, none, List, [], ◌∷◌, ◌++◌, inl, inr}
use gtp_rs.Wire.Codec.{PacketBuilder}
use gtp_rs.Core.Control.{OutgoingControlFrame, out_key_update, drain_controls}
use gtp_rs.Core.Control.Restore.{drain_controls-split}
use gtp_rs.Core.KeyPhase.{
  KeyState, next_phase, in_grace, ratchet_session_key, ratchet_and_announce, flush_pending_ratchet,
  send_controls,
}

module _ {ℓ} {A : Type ℓ} where
  append_empty : (xs ys : List A) → xs ++ ys ≡ [] → (xs ≡ []) × (ys ≡ [])
  append_empty [] ys h = (refl, h)
  append_empty (x ∷ xs) ys h = cc

  -- Where a list that ends in `u` is cut in two, the second part is empty or ends in `u`.
  append_last :
      (xs ys q : List A) (u : A)
      → xs ++ ys ≡ q ++ (u ∷ [])
      → ((xs ≡ q ++ (u ∷ [])) × (ys ≡ []))
        ⊎ ((rest : List A) × (ys ≡ rest ++ (u ∷ [])) × (xs ++ rest ≡ q))
  append_last [] ys q u h = inr (q, h, refl)
  append_last (x ∷ xs) ys [] u h =
      let tails : xs ++ ys ≡ [] = cc in
      let (left, right) = append_empty xs ys tails in inl (cc, right)
  append_last (x ∷ xs) ys (y ∷ q) u h =
      let tails : xs ++ ys ≡ q ++ (u ∷ []) = cc in
      let heads : x ≡ y = cc in
      elim (append_last xs ys q u tails) [
        | inl (whole, none_left) ↦ inl (cc, none_left)
        | inr (rest, ends, front) ↦ inr (rest, ends, cc)
      ]

module _ {Addr Key Iv Protector : Type 0} (ratchet_key : Key → ℕ → ℕ → Key × Iv)
    (new_for_cid : Key → Iv → ℕ → Protector) (addr_eq : Addr → Addr → Bool)
    (active_path : Addr) where
  -- A rotation is announced outside the grace window, and a datagram is sent. It is sealed with the
  -- key before, and the keys are rotated behind it. Either it took the whole queue, the announcement
  -- as the last frame; or, a defect, the announcement is still the last frame in the queue, behind the
  -- frames that the datagram did not take, although the key for sending is already the one that it
  -- announces.
  pub key_update-left_behind :
      (k : KeyState Addr Key Iv Protector) (b : PacketBuilder)
      → in_grace k ≡ false
      → let sent =
          send_controls ratchet_key new_for_cid addr_eq active_path b (ratchet_and_announce k).0 in
        let new_tx = ratchet_key k.tx_key k.connection_id (next_phase k.key_phase_counter) in
        let announcement = out_key_update (next_phase k.key_phase_counter) in
        (sent.sealed_with ≡ k.tx_protector)
        × (sent.behind.tx_protector ≡ new_for_cid new_tx.0 new_tx.1 k.connection_id)
        × (((sent.drained ≡ k.control_queue ++ (announcement ∷ []))
              × (sent.behind.control_queue ≡ []))
            ⊎ ((rest : List (OutgoingControlFrame Addr)) × (sent.behind.control_queue
                  ≡ rest ++ (announcement ∷ []))
                × (sent.drained ++ rest ≡ k.control_queue)))
  unfolding send_controls ratchet_and_announce flush_pending_ratchet ratchet_session_key
  key_update-left_behind k b closed =
      let announcement = out_key_update (next_phase k.key_phase_counter) in
      let queue = k.control_queue ++ (announcement ∷ []) in
      let d = drain_controls addr_eq active_path b none queue in
      let cut =
        append_last d.drained d.left k.control_queue announcement
          (drain_controls-split addr_eq active_path b none queue) in
      rw closed (rw closed (refl, refl, cut))
