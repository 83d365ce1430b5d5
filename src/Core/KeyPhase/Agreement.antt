-- ===== src/Core/KeyPhase/Agreement.antt =====
-- Two ends that have rotated as often as each other have each other's keys.
use gtp_rs.Base.{ℕ, ◌^◌, ◌<◌, ◌≡◌, refl, sym, ap, ◌∙◌, arith, false, none, List, [], length}
use gtp_rs.Core.KeyPhase.{KeyState}
use gtp_rs.Core.KeyPhase.Phases.{Operation, odd, chain, perform_all, InPhase, perform_all-InPhase}

module _ {Addr Key Iv Protector : Type 0} (new_for_cid : Key → Iv → ℕ → Protector) where
  -- A connection whose keys were just agreed on, with its ciphers made of them.
  abbrev pub fresh : ℕ → Key × Iv → Key × Iv → KeyState Addr Key Iv Protector
  fresh cid (tx_key, tx_iv) (rx_key, rx_iv) = record {
    connection_id = cid;
    tx_protector = new_for_cid tx_key tx_iv cid;
    rx_protector = new_for_cid rx_key rx_iv cid;
    rx_protector_prev = none;
    rx_prev_grace_packets = 0;
    tx_key = tx_key;
    rx_key = rx_key;
    tx_iv = tx_iv;
    rx_iv = rx_iv;
    key_phase = false;
    key_phase_counter = 0;
    control_queue = [];
    packets_since_ratchet = 0;
    pending_ratchet = false;
  }

module _ (Addr : Type 0) {Key Iv Protector : Type 0} (ratchet_key : Key → ℕ → ℕ → Key × Iv)
    (new_for_cid : Key → Iv → ℕ → Protector) where
  fresh-InPhase :
      (cid : ℕ) (tx rx : Key × Iv)
      → InPhase {Addr = Addr} ratchet_key new_for_cid cid tx rx 0 (fresh new_for_cid cid tx rx)
  fresh-InPhase cid tx rx = record {
    same_id = refl;
    low = omega arith;
    sends = refl;
    receives = refl;
    seals = refl;
    opens = refl;
    parity = refl;
  }

  -- Two ends of a connection with each other's keys, on which anything happens, less than 2^64 times:
  -- whenever their phases have the same number, what each seals is opened by the other with its
  -- current key, in both directions, and their key phase bits are the same.
  pub same_phase-agree :
      (cid : ℕ) (c s : Key × Iv) (client_ops server_ops : List Operation)
      → length client_ops < 2 ^ 64
      → length server_ops < 2 ^ 64
      → let client : KeyState Addr Key Iv Protector =
          perform_all ratchet_key new_for_cid (fresh new_for_cid cid c s) client_ops in
        let server : KeyState Addr Key Iv Protector =
          perform_all ratchet_key new_for_cid (fresh new_for_cid cid s c) server_ops in
        client.key_phase_counter ≡ server.key_phase_counter
        → (client.tx_protector ≡ server.rx_protector)
          × (server.tx_protector ≡ client.rx_protector)
          × (client.key_phase ≡ server.key_phase)
  same_phase-agree cid c s client_ops server_ops client_few server_few same =
      let client : KeyState Addr Key Iv Protector =
        perform_all ratchet_key new_for_cid (fresh new_for_cid cid c s) client_ops in
      let server : KeyState Addr Key Iv Protector =
        perform_all ratchet_key new_for_cid (fresh new_for_cid cid s c) server_ops in
      let wc =
        perform_all-InPhase ratchet_key new_for_cid cid c s 0 (fresh new_for_cid cid c s) client_ops
          (omega (arith, client_few)) (fresh-InPhase cid c s) in
      let ws =
        perform_all-InPhase ratchet_key new_for_cid cid s c 0 (fresh new_for_cid cid s c) server_ops
          (omega (arith, server_few)) (fresh-InPhase cid s c) in
      let up : (client.tx_key, client.tx_iv) ≡ (server.rx_key, server.rx_iv) =
        wc.sends ∙ ap (chain ratchet_key cid c) same ∙ sym ws.receives in
      let down : (server.tx_key, server.tx_iv) ≡ (client.rx_key, client.rx_iv) =
        ws.sends ∙ ap (chain ratchet_key cid s) (sym same) ∙ sym wc.receives in
      (
        wc.seals
            ∙ ap (λ (p : Key × Iv). new_for_cid p.0 p.1 client.connection_id) up
            ∙ ap (new_for_cid server.rx_key server.rx_iv) (wc.same_id ∙ sym ws.same_id)
            ∙ sym ws.opens,
        ws.seals
            ∙ ap (λ (p : Key × Iv). new_for_cid p.0 p.1 server.connection_id) down
            ∙ ap (new_for_cid client.rx_key client.rx_iv) (ws.same_id ∙ sym wc.same_id)
            ∙ sym wc.opens,
        wc.parity ∙ ap odd same ∙ sym ws.parity,
      )
