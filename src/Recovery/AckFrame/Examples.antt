-- ===== src/Recovery/AckFrame/Examples.antt =====
-- Runs of tracker and parser together, and their theorems at concrete arrivals.
use gtp_rs.Base.{ℕ, zero, suc, ◌≡◌, refl, ap, arith, true, List, [], ◌∷◌, contains}
use gtp_rs.Recovery.AckTracker.Intervals.{
  insert_packet, insert_loop, merge_adjacent, merge_from, retain_above,
}
use gtp_rs.Recovery.AckTracker.{
  new, on_packet_received, count_ecn, update_largest, prune_old_intervals, peek_ack_frame,
}
use gtp_rs.Recovery.AckTracker.Received.{
  Arrival, numbers, receive_all, Records, receive_all-Records,
}
use gtp_rs.Recovery.LossDetector.Ranges.{count_down, parse_loop, parse_ack_ranges}
use gtp_rs.Recovery.AckFrame.{acknowledged}
use gtp_rs.Recovery.AckFrame.Delivery.{acknowledged_sound, acknowledged_complete}
use gtp_rs.Recovery.AckFrame.Stall.{in_order_stall}

abbrev packet : ℕ → Arrival
packet n = record { number = n; eliciting = true; ecn = 0; at = 1000 }

-- 1, 3, 2 and 7 arrived; 4 to 6 are missing.
abbrev lossy : List Arrival
lossy = packet 7 ∷ packet 2 ∷ packet 3 ∷ packet 1 ∷ []

lossy_run : acknowledged (receive_all new lossy) 2000 ≡ 7 ∷ 3 ∷ 2 ∷ 1 ∷ []
unfolding acknowledged receive_all new on_packet_received count_ecn update_largest
    prune_old_intervals peek_ack_frame insert_packet insert_loop merge_adjacent merge_from
    retain_above parse_ack_ranges parse_loop count_down
lossy_run = refl

receive_all-Records_example :
    Records
      (receive_all new lossy).intervals
      (receive_all new lossy).largest_received
      (numbers lossy)
unfolding new
receive_all-Records_example = receive_all-Records new lossy refl refl (omega arith)

acknowledged_sound_example : contains (numbers lossy) 2 ≡ true
acknowledged_sound_example =
    acknowledged_sound (packet 7) (packet 2 ∷ packet 3 ∷ packet 1 ∷ []) (omega arith) 2000 2
      (ap (λ l. contains l 2) lossy_run)

acknowledged_complete_example : contains (acknowledged (receive_all new lossy) 2000) 3 ≡ true
unfolding receive_all new on_packet_received count_ecn update_largest prune_old_intervals
    insert_packet insert_loop merge_adjacent merge_from retain_above
acknowledged_complete_example =
    acknowledged_complete (packet 7) (packet 2 ∷ packet 3 ∷ packet 1 ∷ []) (omega arith) 2000 3
      (omega arith) (omega arith) (omega arith) refl

packets_down : ℕ → List Arrival
packets_down zero = []
packets_down (suc n) = packet (suc n) ∷ packets_down n

numbers-packets_down : (n : ℕ) → numbers (packets_down n) ≡ count_down n n
unfolding packets_down count_down
numbers-packets_down zero = refl
numbers-packets_down (suc n) = ground (arith, numbers-packets_down n)

in_order_stall_example : acknowledged (receive_all new (packets_down 20000)) 5 ≡ []
in_order_stall_example =
    in_order_stall 20000 5 (packets_down 20000) (numbers-packets_down 20000) (omega arith)
      (omega arith)
