-- ===== src/Core/KeyPhase.antt =====
-- crates/gtp-core/src/state.rs: the keys of a connection and their rotation. The key derivation and the
-- ciphers are parameters; a build without them (`insecure-plaintext`) is left out.
pub mod Phases
pub mod Agreement
pub mod Grace
pub mod Announcing
mod Examples
use gtp_rs.Base.{
  ℕ, zero, suc, ◌+◌, ◌-◌, ◌%◌, ◌^◌, ltb, ◌==◌, ◌&&◌, not, if◌then◌else◌, Bool, true, false, Option,
  none, some, List, [], ◌∷◌, ◌++◌,
}
use gtp_rs.Wire.Codec.{PacketBuilder}
use gtp_rs.Core.Control.{OutgoingControlFrame, out_key_update, drain_controls}

abbrev pub rx_prev_key_grace_packets : ℕ
rx_prev_key_grace_packets = 256

-- The fields of `ConnectionHot` that the rotation reads or writes.
pub record KeyState (Addr Key Iv Protector : Type 0) : Type 0 where
  pub connection_id : ℕ
  pub tx_protector : Protector
  pub rx_protector : Protector
  pub rx_protector_prev : Option Protector
  pub rx_prev_grace_packets : ℕ
  pub tx_key : Key
  pub rx_key : Key
  pub tx_iv : Iv
  pub rx_iv : Iv
  pub key_phase : Bool
  pub key_phase_counter : ℕ
  pub control_queue : List (OutgoingControlFrame Addr)
  pub packets_since_ratchet : ℕ
  pub pending_ratchet : Bool

abbrev pub is_some {ℓ} : {A : Type ℓ} → Option A → Bool
is_some none = false
is_some (some a) = true

-- A u64 that wraps.
abbrev pub next_phase : ℕ → ℕ
next_phase counter = (counter + 1) % 2 ^ 64

module _ {Addr Key Iv Protector : Type 0} where
  -- The window after a rotation in which no other may start.
  abbrev pub in_grace : KeyState Addr Key Iv Protector → Bool
  in_grace k = is_some k.rx_protector_prev && ltb 0 k.rx_prev_grace_packets

  -- The announced phase, or 0 for a refusal.
  unfoldable pub ratchet_and_announce :
      KeyState Addr Key Iv Protector → KeyState Addr Key Iv Protector × ℕ
  ratchet_and_announce k = if in_grace k then (k, 0) else (
    record k {
      control_queue = k.control_queue ++ (out_key_update (next_phase k.key_phase_counter) ∷ []);
      pending_ratchet = true;
    },
    next_phase k.key_phase_counter,
  )

  unfoldable pub tick_rx_key_grace : KeyState Addr Key Iv Protector → KeyState Addr Key Iv Protector
  tick_rx_key_grace k =
      let left = k.rx_prev_grace_packets - 1 in
      if not (is_some k.rx_protector_prev)
      then k
      else if left == 0
      then record k { rx_prev_grace_packets = left; rx_protector_prev = none }
      else record k { rx_prev_grace_packets = left }

module _ {Addr Key Iv Protector : Type 0} (ratchet_key : Key → ℕ → ℕ → Key × Iv)
    (new_for_cid : Key → Iv → ℕ → Protector) where
  abbrev pub rotated :
      KeyState Addr Key Iv Protector → (Key × Iv) → (Key × Iv) → KeyState Addr Key Iv Protector
  rotated k (new_tx_key, new_tx_iv) (new_rx_key, new_rx_iv) = record k {
    tx_protector = new_for_cid new_tx_key new_tx_iv k.connection_id;
    rx_protector = new_for_cid new_rx_key new_rx_iv k.connection_id;
    rx_protector_prev = some k.rx_protector;
    rx_prev_grace_packets = rx_prev_key_grace_packets;
    tx_key = new_tx_key;
    rx_key = new_rx_key;
    tx_iv = new_tx_iv;
    rx_iv = new_rx_iv;
    key_phase = not k.key_phase;
    key_phase_counter = next_phase k.key_phase_counter;
    packets_since_ratchet = 0;
  }

  unfoldable pub ratchet_session_key :
      KeyState Addr Key Iv Protector → KeyState Addr Key Iv Protector
  ratchet_session_key k =
      if in_grace k
      then k
      else rotated k (ratchet_key k.tx_key k.connection_id (next_phase k.key_phase_counter))
          (ratchet_key k.rx_key k.connection_id (next_phase k.key_phase_counter))

  unfoldable pub flush_pending_ratchet :
      KeyState Addr Key Iv Protector → KeyState Addr Key Iv Protector
  flush_pending_ratchet k =
      if k.pending_ratchet then ratchet_session_key (record k { pending_ratchet = false }) else k

  unfoldable pub on_key_update : KeyState Addr Key Iv Protector → ℕ → KeyState Addr Key Iv Protector
  on_key_update k announced_phase =
      if ltb k.key_phase_counter announced_phase then ratchet_session_key k else k

-- A datagram that `produce_outgoing_datagram` seals and sends, as far as the keys see it: what was
-- put into it, the key that it was sealed with, and the keys behind it.
pub record SentControls (Addr Key Iv Protector : Type 0) : Type 0 where
  pub drained : List (OutgoingControlFrame Addr)
  pub sealed_with : Protector
  pub behind : KeyState Addr Key Iv Protector

module _ {Addr Key Iv Protector : Type 0} (ratchet_key : Key → ℕ → ℕ → Key × Iv)
    (new_for_cid : Key → Iv → ℕ → Protector) (addr_eq : Addr → Addr → Bool)
    (active_path : Addr) where
  -- Step 3b takes frames off the queue, step 6 seals, and at the end the pending rotation is done.
  unfoldable pub send_controls :
      PacketBuilder → KeyState Addr Key Iv Protector → SentControls Addr Key Iv Protector
  send_controls b k =
      let d = drain_controls addr_eq active_path b none k.control_queue in
      record {
        drained = d.drained;
        sealed_with = k.tx_protector;
        behind = flush_pending_ratchet ratchet_key new_for_cid (record k {
          control_queue = d.left;
          packets_since_ratchet = (k.packets_since_ratchet + 1) % 2 ^ 64;
        });
      }
