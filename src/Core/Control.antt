-- ===== src/Core/Control.antt =====
-- crates/gtp-core/src/connection.rs: the control frames that `produce_outgoing_datagram` takes off their
-- queue, and puts back where the datagram is rejected. A variant of the queue's type is spelled
-- `out_...`, beside the frame of the same name. A socket address is a type with an equality test.
pub mod Restore
mod Examples
use gtp_rs.Base.{
  ℕ, not, ◌||◌, if◌then◌else◌, Bool, true, false, Option, none, some, List, [], ◌∷◌, replicate,
}
use gtp_rs.Types.Errors.{Result, ok, err}
use gtp_rs.Wire.Frame.{
  Frame, ping, path_challenge, path_response, mtu_probe, close, ack_frequency, key_update,
}
use gtp_rs.Wire.Codec.{PacketBuilder, append_frame}

pub data OutgoingControlFrame (Addr : Type 0) : Type 0 where
  out_ping : ℕ → OutgoingControlFrame Addr
  out_path_challenge : List ℕ → Addr → OutgoingControlFrame Addr
  out_path_response : List ℕ → Addr → OutgoingControlFrame Addr
  out_mtu_probe : ℕ → ℕ → OutgoingControlFrame Addr
  out_ack_frequency : ℕ → ℕ → ℕ → OutgoingControlFrame Addr
  out_close : ℕ → List ℕ → OutgoingControlFrame Addr
  out_key_update : ℕ → OutgoingControlFrame Addr

module _ {Addr : Type 0} where
  abbrev pub build_control_frame : OutgoingControlFrame Addr → Frame
  build_control_frame (out_ping nonce) = ping nonce
  build_control_frame (out_path_challenge content dest) = path_challenge content
  build_control_frame (out_path_response content dest) = path_response content
  build_control_frame (out_mtu_probe probe_id padding_len) = mtu_probe probe_id padding_len
  build_control_frame (out_ack_frequency packets max_delay_ms threshold) =
      ack_frequency packets max_delay_ms threshold
  build_control_frame (out_close error_code reason) = close error_code reason
  build_control_frame (out_key_update next_phase) = key_update next_phase (replicate 32 0)

  abbrev pub is_close : OutgoingControlFrame Addr → Bool
  is_close (out_close error_code reason) = true
  is_close _ = false

  -- Frames pushed to the front, one by one.
  abbrev pub push_all :
      List (OutgoingControlFrame Addr)
      → List (OutgoingControlFrame Addr)
      → List (OutgoingControlFrame Addr)
  push_all [] queue = queue
  push_all (ctrl ∷ more) queue = push_all more (ctrl ∷ queue)

  -- The drained frames, the last one first, go back to the front.
  unfoldable pub requeue_controls :
      List (OutgoingControlFrame Addr)
      → List (OutgoingControlFrame Addr)
      → List (OutgoingControlFrame Addr)
  requeue_controls queue drained = push_all (push_all drained []) queue

-- What the drain has done to the builder and to the queue.
pub record Drain (Addr : Type 0) : Type 0 where
  pub builder : PacketBuilder
  pub drained : List (OutgoingControlFrame Addr)
  pub left : List (OutgoingControlFrame Addr)
  pub override_dest : Option Addr
  pub close_drained : Bool

module _ {Addr : Type 0} (addr_eq : Addr → Addr → Bool) (active_path : Addr) where
  -- The address that a frame has to go to, where it is not the active path.
  abbrev pub directed : OutgoingControlFrame Addr → Option Addr
  directed (out_path_challenge content dest) = if addr_eq dest active_path then none else some dest
  directed (out_path_response content dest) = if addr_eq dest active_path then none else some dest
  directed _ = none

  abbrev is_directed : Option Addr → Bool
  is_directed none = false
  is_directed (some dest) = true

  abbrev pub directed_ahead : List (OutgoingControlFrame Addr) → Bool
  directed_ahead [] = false
  directed_ahead (ctrl ∷ queue) = is_directed (directed ctrl) || directed_ahead queue

  abbrev pub stopped : PacketBuilder → Option Addr → List (OutgoingControlFrame Addr) → Drain Addr
  stopped b override_dest left = record {
    builder = b;
    drained = [];
    left = left;
    override_dest = override_dest;
    close_drained = false;
  }

  abbrev pub on_append :
      Result PacketBuilder → (PacketBuilder → Drain Addr) → Drain Addr → Drain Addr
  on_append (ok b) taken kept = taken b
  on_append (err e) taken kept = kept

  -- The loop of step 3b: it ends behind a directed frame, and before one that does not fit.
  unfoldable pub drain_controls :
      PacketBuilder → Option Addr → List (OutgoingControlFrame Addr) → Drain Addr
  drain_controls b override_dest [] = stopped b override_dest []
  drain_controls b (some dest) (ctrl ∷ queue) = stopped b (some dest) (ctrl ∷ queue)
  drain_controls b none (ctrl ∷ queue) =
      on_append (append_frame b (build_control_frame ctrl))
        (λ b'.
          let rest = drain_controls b' (directed ctrl) queue in
          record rest {
            drained = ctrl ∷ rest.drained;
            close_drained = is_close ctrl || rest.close_drained;
          })
        (stopped b (directed ctrl) (ctrl ∷ queue))
