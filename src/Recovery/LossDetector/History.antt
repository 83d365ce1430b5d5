-- ===== src/Recovery/LossDetector/History.antt =====
-- Every history of the loss detector: sends, acknowledgements, timeouts and path migrations.
use gtp_rs.Base.{ℕ, suc, ◌+◌, ◌^◌, ◌<◌, ◌≡◌, refl, arith, List, [], ◌∷◌, none}
use gtp_rs.Base.{ltb, ◌∙◌, inl, inr, Option-cases, Bool-cases}
use gtp_rs.Wire.Frame.{AckRange}
use gtp_rs.Recovery.LossDetector.Sent.{SentPacketRecord, SentPackets, lookup, remove}
use gtp_rs.Recovery.LossDetector.Flight.{scan, Ascending, KeysBelow, scan-remove}
use gtp_rs.Recovery.LossDetector.Flight.{remove-Ascending, remove-KeysBelow}
use gtp_rs.Recovery.LossDetector.{
  LossDetector, AckPass, new, on_packet_sent, on_path_migration, detect_losses, delivery_step,
  settle, acknowledge, on_ack_received, drain_loop, drained_bytes, drain, on_timeout, lost_pns,
  time_threshold,
}
use gtp_rs.Recovery.LossDetector.Accounting.{
  Consistent, IsConsistent, ack_loop-Acked, new-IsConsistent,
}
use gtp_rs.Recovery.LossDetector.Accounting.{on_packet_sent-IsConsistent}
use gtp_rs.Recovery.LossDetector.Ranges.{parse_ack_ranges}
use gtp_rs.Recovery.LossDetector.Sweep.{loss_loop-Lost, lost_pns-FlightKeys}

settle_frame :
    (p : AckPass) (largest_pn : ℕ)
    → let d = settle p largest_pn in
      (d.sent_packets ≡ p.detector.sent_packets)
      × (d.inflight_bytes ≡ p.detector.inflight_bytes)
      × (d.largest_sent_packet ≡ p.detector.largest_sent_packet)
unfolding settle
settle_frame p largest_pn = (refl, refl, refl)

delivery_frame :
    (rate : ℕ → ℕ → ℕ) (d : LossDetector) (now : ℕ)
    → let e = (delivery_step rate d now).0 in
      (e.sent_packets ≡ d.sent_packets)
      × (e.inflight_bytes ≡ d.inflight_bytes)
      × (e.largest_sent_packet ≡ d.largest_sent_packet)
unfolding delivery_step
delivery_frame rate d now = ground arith

acknowledge-Acked :
    (d : LossDetector) (largest_pn ack_delay : ℕ) (ranges : List AckRange) (range_count now : ℕ)
    → IsConsistent d
    → d.inflight_bytes < 2 ^ 64
    → let q = acknowledge d largest_pn ack_delay ranges range_count now in
      (q.detector.largest_sent_packet ≡ d.largest_sent_packet)
      × (q.detector.inflight_bytes + q.acked_bytes ≡ d.inflight_bytes)
      × IsConsistent q.detector
unfolding acknowledge
acknowledge-Acked d largest_pn ack_delay ranges range_count now c room =
    let all =
      ack_loop-Acked largest_pn ack_delay now (parse_ack_ranges largest_pn ranges range_count)
        (record { detector = d; newly_acked = []; acked_bytes = 0; sample = none }) c
        (omega arith) in
    (all.same_largest, omega (arith, all.settled), all.still)

detect_losses-Lost :
    (d : LossDetector) (largest_pn now : ℕ)
    → IsConsistent d
    → d.inflight_bytes < 2 ^ 64
    → let q = detect_losses d largest_pn now in
      (q.inflight + q.lost_bytes ≡ d.inflight_bytes)
      × Consistent q.packets d.largest_sent_packet q.inflight
unfolding detect_losses
detect_losses-Lost d largest_pn now c room =
    let all =
      loss_loop-Lost d.largest_sent_packet
        (lost_pns largest_pn now (time_threshold d.rtt_stats) d.sent_packets)
        (record {
          packets = d.sent_packets;
          inflight = d.inflight_bytes;
          lost = [];
          lost_bytes = 0;
          frames = [];
        })
        c (omega arith)
        (lost_pns-FlightKeys largest_pn now (time_threshold d.rtt_stats) 0 d.sent_packets
          c.ascending) in
    (omega (arith, all.settled), all.still)

detect_after :
    (d e : LossDetector) (largest_pn now : ℕ)
    → IsConsistent d
    → d.inflight_bytes < 2 ^ 64
    → e.sent_packets ≡ d.sent_packets
    → e.inflight_bytes ≡ d.inflight_bytes
    → e.largest_sent_packet ≡ d.largest_sent_packet
    → let q = detect_losses e largest_pn now in
      (q.inflight + q.lost_bytes ≡ d.inflight_bytes)
      × Consistent q.packets e.largest_sent_packet q.inflight
detect_after d e largest_pn now c room same count top =
    let (sum, still) =
      detect_losses-Lost e largest_pn now (rw (same, count, top) c) (omega arith) in
    (omega arith, still)

module _ (rate : ℕ → ℕ → ℕ) (d : LossDetector) (largest_pn ack_delay : ℕ) where
  module _ (ranges : List AckRange) (range_count now : ℕ) where
    -- For a consistent detector with less than 2^64 bytes in flight: every byte that leaves the
    -- counter on an acknowledgement frame is reported once, as acknowledged or as lost, and the
    -- counter still agrees with a scan of the map.
    pub on_ack_received-conserves :
        IsConsistent d
        → d.inflight_bytes < 2 ^ 64
        → let o = on_ack_received rate d largest_pn ack_delay ranges range_count now in
          IsConsistent o.after
          × (o.after.inflight_bytes + o.acks.bytes_acked + o.losses.bytes_lost ≡ d.inflight_bytes)
    unfolding on_ack_received
    on_ack_received-conserves c room = elim (Bool-cases (ltb d.largest_sent_packet largest_pn)) [
      | inl forged ↦ rw forged (c, omega arith)
      | inr plausible ↦
          let pass = acknowledge d largest_pn ack_delay ranges range_count now in
          let (top, moved, still) =
            acknowledge-Acked d largest_pn ack_delay ranges range_count now c room in
          let (s0, s1, s2) = settle_frame pass largest_pn in
          let (t0, t1, t2) = delivery_frame rate (settle pass largest_pn) now in
          let (sum, left) =
            detect_after pass.detector (delivery_step rate (settle pass largest_pn) now).0
              largest_pn now still (omega arith) (t0 ∙ s0) (t1 ∙ s1) (t2 ∙ s2) in
          rw plausible (left, omega arith)
    ]

scan-remove_missing : (m : SentPackets) (pn : ℕ) → lookup pn m ≡ none → remove pn m ≡ m
unfolding lookup remove
scan-remove_missing [] pn h = refl
scan-remove_missing ((k, s) ∷ m) pn h = ground (arith, scan-remove_missing m pn)

drained_step :
    (m : SentPackets) (pn bytes : ℕ)
    → scan m + bytes < 2 ^ 64
    → scan (remove pn m) + drained_bytes (lookup pn m) bytes ≡ scan m + bytes
drained_step m pn bytes room = elim (Option-cases (lookup pn m)) [
  | inl missing ↦ rw (missing, scan-remove_missing m pn missing)
  | inr (r, found) ↦ rw found (ground (arith, scan-remove m pn r found))
]

drain_loop-Drained :
    (pns : List ℕ) (m : SentPackets) (bytes largest : ℕ)
    → Ascending 0 m
    → KeysBelow (suc largest) m
    → scan m + bytes < 2 ^ 64
    → let q = drain_loop pns m bytes in
      (scan q.0 + q.1 ≡ scan m + bytes) × Ascending 0 q.0 × KeysBelow (suc largest) q.0
unfolding drain_loop
drain_loop-Drained [] m bytes largest a k room = (refl, a, k)
drain_loop-Drained (pn ∷ pns) m bytes largest a k room =
    let moved = drained_step m pn bytes room in
    let (sum, still, bounded) =
      drain_loop-Drained pns (remove pn m) (drained_bytes (lookup pn m) bytes) largest
        (remove-Ascending m 0 pn a) (remove-KeysBelow m (suc largest) pn k)
        (omega (arith, moved)) in
    (sum ∙ moved, still, bounded)

-- For a consistent detector with less than 2^64 bytes in flight, a timeout takes the bytes that it
-- reports off the counter, which stays in step with the map.
pub on_timeout-conserves :
    (d : LossDetector)
    → IsConsistent d
    → d.inflight_bytes < 2 ^ 64
    → let o = on_timeout d in
      IsConsistent o.0 × (o.0.inflight_bytes + o.1.bytes_lost ≡ d.inflight_bytes)
unfolding on_timeout
on_timeout-conserves d c room =
    let pns = (drain 2 d.sent_packets).0 in
    let (sum, still, bounded) =
      drain_loop-Drained pns d.sent_packets 0 d.largest_sent_packet c.ascending c.bounded
        (omega (arith, c.counted)) in
    (
      record { ascending = still; bounded = bounded; counted = omega (arith, c.counted) },
      omega (arith, c.counted),
    )

-- What a connection does with its detector. It numbers packets upwards, and the bytes in flight
-- fit a u64.
pub data Step (rate : ℕ → ℕ → ℕ) (d : LossDetector) : LossDetector → Type 0 where
  sent :
      (r : SentPacketRecord)
      → d.largest_sent_packet < r.packet_number
      → d.inflight_bytes + r.bytes < 2 ^ 64
      → Step rate d (on_packet_sent d r)
  acked :
      (largest_pn ack_delay : ℕ) (ranges : List AckRange) (range_count now : ℕ)
      → Step rate d (on_ack_received rate d largest_pn ack_delay ranges range_count now).after
  timed_out : Step rate d (on_timeout d).0
  migrated : (first_pn : ℕ) → Step rate d (on_path_migration d first_pn)

pub data Reach (rate : ℕ → ℕ → ℕ) (d : LossDetector) : LossDetector → Type 0 where
  here : Reach rate d d
  next : {e f : LossDetector} → Reach rate d e → Step rate e f → Reach rate d f

pub record IsSound (d : LossDetector) : Type 0 where
  pub consistent : IsConsistent d
  pub fits : d.inflight_bytes < 2 ^ 64

Step-IsSound : {rate : ℕ → ℕ → ℕ} {d e : LossDetector} → Step rate d e → IsSound d → IsSound e
Step-IsSound (sent r fresh room) s = record {
  consistent = on_packet_sent-IsConsistent _ r s.consistent fresh room;
  fits = unfold on_packet_sent in ground arith;
}
Step-IsSound {rate} {d} (acked largest_pn ack_delay ranges range_count now) s =
    let (still, sum) =
      on_ack_received-conserves rate d largest_pn ack_delay ranges range_count now s.consistent
        s.fits in
    record { consistent = still; fits = omega (arith, s.fits) }
Step-IsSound {d = d} timed_out s =
    let (still, sum) = on_timeout-conserves d s.consistent s.fits in
    record { consistent = still; fits = omega (arith, s.fits) }
Step-IsSound (migrated first_pn) s = record {
  consistent = unfold on_path_migration in s.consistent;
  fits = unfold on_path_migration in s.fits;
}

-- In every state that a fresh detector reaches by sends, each with a number from 1 on above the
-- largest sent and with bytes that keep the counter below 2^64, by acknowledgements (forged ones
-- too), timeouts and path migrations, the counter of bytes in flight is what a scan of the map finds.
pub inflight_bytes-scan :
    {rate : ℕ → ℕ → ℕ} {d : LossDetector}
    → Reach rate new d
    → d.inflight_bytes ≡ scan d.sent_packets
inflight_bytes-scan {d = d} r = sound_at.consistent.counted
  where
    reach-IsSound : {rate : ℕ → ℕ → ℕ} {e : LossDetector} → Reach rate new e → IsSound e
    reach-IsSound here = record { consistent = new-IsConsistent; fits = unfold new in omega arith }
    reach-IsSound (next q st) = Step-IsSound st (reach-IsSound q)

    sound_at : IsSound d
    sound_at = reach-IsSound r
