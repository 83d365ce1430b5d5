-- ===== src/Path/AntiAmplification/Examples.antt =====
-- The amplification bound on the traffic of the source's own tests.
use gtp_rs.Base.{◌≤◌, ◌+◌, ◌*◌, ◌≡◌, true, List, [], ◌∷◌, arith}
use gtp_rs.Path.AntiAmplification.{with_factor, on_bytes_received, can_send, new}
use gtp_rs.Path.AntiAmplification.Budget.{
  Event, received, send, sent_bytes, received_bytes, with_factor-Within, sent_bytes_le,
  can_send-reply,
}

abbrev traffic : List Event
traffic = received 100 ∷ send 200 ∷ send 150 ∷ send 100 ∷ received 10 ∷ send 31 ∷ []

sent_bytes_le_example : 0 + sent_bytes (with_factor 3) traffic ≤ (0 + received_bytes traffic) * 3
unfolding with_factor new
sent_bytes_le_example = sent_bytes_le traffic (with_factor 3) (with_factor-Within 3) (omega arith)

can_send-reply_example : can_send (on_bytes_received (with_factor 0) 1200) 1200 ≡ true
unfolding with_factor new
can_send-reply_example = can_send-reply (with_factor 0) 1200 (with_factor-Within 0) (omega arith)
