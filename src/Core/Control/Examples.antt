-- ===== src/Core/Control/Examples.antt =====
-- A queue that a directed challenge holds up, and the theorem there.
use gtp_rs.Base.{ℕ, ◌==◌, ◌≡◌, refl, none, List, [], ◌∷◌, replicate, to_be_bytes}
use gtp_rs.Wire.Codec.{PacketBuilder, append_frame}
use gtp_rs.Wire.Header.{new_short}
use gtp_rs.Wire.Encode.{encode, encode_frame}
use gtp_rs.Core.Control.{
  OutgoingControlFrame, out_ping, out_path_challenge, out_key_update, drain_controls,
  requeue_controls,
}
use gtp_rs.Core.Control.Restore.{requeue-drain}

abbrev builder : PacketBuilder
builder = record { capacity = 1200; header = new_short 7 1 0 0; header_len = 24; payload = [] }

abbrev queue : List (OutgoingControlFrame ℕ)
queue = out_ping 3 ∷ out_path_challenge (replicate 8 1) 99 ∷ out_key_update 1 ∷ []

requeue-drain_example :
    requeue_controls
      (drain_controls (λ a b. a == b) 50 builder none queue).left
      (drain_controls (λ a b. a == b) 50 builder none queue).drained
    ≡ queue
requeue-drain_example = requeue-drain (λ a b. a == b) 50 builder queue

held_up : (drain_controls (λ a b. a == b) 50 builder none queue).left ≡ out_key_update 1 ∷ []
unfolding drain_controls append_frame encode encode_frame to_be_bytes
held_up = refl
