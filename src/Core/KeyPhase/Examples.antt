-- ===== src/Core/KeyPhase/Examples.antt =====
-- Two ends with toy keys, and the theorems there. A key is a number, the cipher is the key itself.
use gtp_rs.Base.{
  ℕ, ◌+◌, ◌≤◌, ◌<◌, ◌==◌, ◌≡◌, refl, arith, none, some, [], ◌∷◌, replicate, ◌++◌, ◌⊎◌, List,
  to_be_bytes,
}
use gtp_rs.Wire.Codec.{PacketBuilder, append_frame}
use gtp_rs.Wire.Header.{new_short}
use gtp_rs.Wire.Encode.{encode, encode_frame}
use gtp_rs.Core.Control.{OutgoingControlFrame, out_path_challenge, out_key_update, drain_controls}
use gtp_rs.Core.KeyPhase.{
  KeyState, SentControls, send_controls, ratchet_session_key, ratchet_and_announce,
  flush_pending_ratchet, on_key_update, tick_rx_key_grace,
}
use gtp_rs.Core.KeyPhase.Phases.{announces, flushes, updated, ticks, perform_all}
use gtp_rs.Core.KeyPhase.Agreement.{fresh, same_phase-agree}
use gtp_rs.Core.KeyPhase.Grace.{tick_all, ratchet-grace}
use gtp_rs.Core.KeyPhase.Announcing.{key_update-left_behind}

abbrev derive : ℕ → ℕ → ℕ → ℕ × ℕ
derive key cid phase = (key + phase, key + cid)

abbrev cipher : ℕ → ℕ → ℕ → ℕ
cipher key iv cid = key

abbrev client : KeyState ℕ ℕ ℕ ℕ
client = fresh cipher 5 (100, 1) (200, 2)

abbrev server : KeyState ℕ ℕ ℕ ℕ
server = fresh cipher 5 (200, 2) (100, 1)

-- The client announces, its datagram leaves, and the server follows.
same_phase-agree_example :
    let c = perform_all derive cipher client (announces ∷ flushes ∷ []) in
    let s = perform_all derive cipher server (ticks ∷ updated 1 ∷ []) in
    (c.tx_protector ≡ s.rx_protector)
    × (s.tx_protector ≡ c.rx_protector)
    × (c.key_phase ≡ s.key_phase)
unfolding ratchet_session_key ratchet_and_announce flush_pending_ratchet on_key_update
    tick_rx_key_grace
same_phase-agree_example =
    same_phase-agree ℕ derive cipher 5 (100, 1) (200, 2) (announces ∷ flushes ∷ [])
      (ticks ∷ updated 1 ∷ []) (omega arith) (omega arith) refl

ratchet-grace_example :
    let later = tick_all 3 (ratchet_session_key derive cipher client) in
    (3 < 256 → later.rx_protector_prev ≡ some 200) × (256 ≤ 3 → later.rx_protector_prev ≡ none)
ratchet-grace_example = ratchet-grace derive cipher client 3 refl

abbrev builder : PacketBuilder
builder = record { capacity = 1200; header = new_short 7 1 0 0; header_len = 24; payload = [] }

abbrev challenging : KeyState ℕ ℕ ℕ ℕ
challenging = record client { control_queue = out_path_challenge (replicate 8 1) 99 ∷ [] }

abbrev addressed : SentControls ℕ ℕ ℕ ℕ
addressed =
    send_controls derive cipher (λ a b. a == b) 50 builder (ratchet_and_announce challenging).0

-- The challenge goes alone, and the announcement waits behind the rotation.
challenge_alone :
    (addressed.drained ≡ out_path_challenge (replicate 8 1) 99 ∷ [])
    × (addressed.behind.control_queue ≡ out_key_update 1 ∷ [])
unfolding append_frame encode encode_frame to_be_bytes send_controls drain_controls
    ratchet_and_announce flush_pending_ratchet ratchet_session_key
challenge_alone = (refl, refl)

key_update-left_behind_example :
    (addressed.sealed_with ≡ 100)
    × (addressed.behind.tx_protector ≡ 101)
    × (((addressed.drained ≡ challenging.control_queue ++ (out_key_update 1 ∷ []))
          × (addressed.behind.control_queue ≡ []))
        ⊎ ((rest : List (OutgoingControlFrame ℕ)) × (addressed.behind.control_queue
              ≡ rest ++ (out_key_update 1 ∷ []))
            × (addressed.drained ++ rest ≡ challenging.control_queue)))
key_update-left_behind_example =
    key_update-left_behind derive cipher (λ a b. a == b) 50 challenging builder refl
