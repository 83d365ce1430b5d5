-- ===== src/Recovery/LossDetector/Examples.antt =====
-- The accounting theorems at concrete detectors.
use gtp_rs.Base.{ℕ, ◌+◌, ◌*◌, ◌/◌, ◌≡◌, refl, arith, true, List, [], ◌∷◌}
use gtp_rs.Wire.Frame.{AckRange}
use gtp_rs.Recovery.LossDetector.Sent.{SentPacketRecord, insert}
use gtp_rs.Recovery.LossDetector.Flight.{scan}
use gtp_rs.Recovery.LossDetector.{LossDetector, new, on_packet_sent, on_ack_received, on_timeout}
use gtp_rs.Recovery.LossDetector.Accounting.{IsConsistent}
use gtp_rs.Recovery.LossDetector.History.{
  Reach, here, next, sent, acked, timed_out, on_ack_received-conserves, on_timeout-conserves,
  inflight_bytes-scan,
}

abbrev sent_record : ℕ → SentPacketRecord
sent_record n = record {
  packet_number = n;
  send_time = 100;
  bytes = 1200;
  ack_eliciting = true;
  in_flight = true;
  retransmittable_frames = [];
}

abbrev per_second : ℕ → ℕ → ℕ
per_second delivered interval = delivered * 1000000 / interval

abbrev two_sent : LossDetector
two_sent = on_packet_sent (on_packet_sent new (sent_record 1)) (sent_record 2)

two_sent-IsConsistent : IsConsistent two_sent
unfolding on_packet_sent new insert scan
two_sent-IsConsistent = record { ascending = omega arith; bounded = omega arith; counted = refl }

abbrev second_only : List AckRange
second_only = record { gap = 0; length = 0 } ∷ []

on_ack_received-conserves_example :
    let o = on_ack_received per_second two_sent 2 50 second_only 1 5000 in
    IsConsistent o.after
    × (o.after.inflight_bytes + o.acks.bytes_acked + o.losses.bytes_lost ≡ 2400)
unfolding on_packet_sent new
on_ack_received-conserves_example =
    on_ack_received-conserves per_second two_sent 2 50 second_only 1 5000 two_sent-IsConsistent
      (omega arith)

on_timeout-conserves_example :
    let o = on_timeout two_sent in IsConsistent o.0 × (o.0.inflight_bytes + o.1.bytes_lost ≡ 2400)
unfolding on_packet_sent new
on_timeout-conserves_example = on_timeout-conserves two_sent two_sent-IsConsistent (omega arith)

after_traffic :
    Reach per_second new
      (on_timeout (on_ack_received per_second two_sent 2 50 second_only 1 5000).after).0
unfolding on_packet_sent new
after_traffic =
    next
      (next
        (next (next here (sent (sent_record 1) (omega arith) (omega arith)))
          (sent (sent_record 2) (omega arith) (omega arith)))
        (acked 2 50 second_only 1 5000))
      timed_out

inflight_bytes-scan_example :
    let d = (on_timeout (on_ack_received per_second two_sent 2 50 second_only 1 5000).after).0 in
    d.inflight_bytes ≡ scan d.sent_packets
inflight_bytes-scan_example = inflight_bytes-scan after_traffic
