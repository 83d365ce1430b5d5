-- ===== src/Recovery/LossDetector/Accounting.antt =====
-- The running counter of bytes in flight against a scan of the map, over every operation.
use gtp_rs.Base.{ℕ, suc, ◌+◌, ◌-◌, ◌%◌, ◌^◌, ◌<◌, ◌≡◌, refl, arith, List, [], ◌∷◌, some}
use gtp_rs.Base.{if◌then◌else◌, max, ◌∙◌, inl, inr, Option-cases}
use gtp_rs.Recovery.LossDetector.Sent.{SentPacketRecord, SentPackets, lookup, remove}
use gtp_rs.Recovery.LossDetector.Flight.{
  flight, scan, Ascending, KeysBelow, scan-insert, scan-remove,
}
use gtp_rs.Recovery.LossDetector.Flight.{
  insert-Ascending, remove-Ascending, insert-KeysBelow, remove-KeysBelow,
}
use gtp_rs.Recovery.LossDetector.Flight.{KeysBelow-mono, lookup-above}
use gtp_rs.Recovery.LossDetector.{
  LossDetector, AckPass, new, on_packet_sent, ack_record, on_found, ack_loop,
}

-- The map is in order, knows no number beyond the largest sent, and the counter agrees with it.
pub record Consistent (m : SentPackets) (largest inflight : ℕ) : Type 0 where
  pub ascending : Ascending 0 m
  pub bounded : KeysBelow (suc largest) m
  pub counted : inflight ≡ scan m

abbrev pub IsConsistent : LossDetector → Type 0
IsConsistent d = Consistent d.sent_packets d.largest_sent_packet d.inflight_bytes

pub new-IsConsistent : IsConsistent new
unfolding new scan
new-IsConsistent = record { ascending = tt; bounded = tt; counted = refl }

pub on_packet_sent-IsConsistent :
    (d : LossDetector) (r : SentPacketRecord)
    → IsConsistent d
    → d.largest_sent_packet < r.packet_number
    → d.inflight_bytes + r.bytes < 2 ^ 64
    → IsConsistent (on_packet_sent d r)
unfolding on_packet_sent
on_packet_sent-IsConsistent d r c fresh room = record {
  ascending = insert-Ascending d.sent_packets 0 r.packet_number r c.ascending (omega arith);
  bounded =
      insert-KeysBelow d.sent_packets (suc (max d.largest_sent_packet r.packet_number))
        r.packet_number r
        (KeysBelow-mono d.sent_packets (suc d.largest_sent_packet) _ (omega arith) c.bounded)
        (omega arith);
  counted = ground (
    arith,
    c.counted,
    scan-insert d.sent_packets r.packet_number r
        (lookup-above d.sent_packets (suc d.largest_sent_packet) r.packet_number c.bounded fresh),
  );
}

-- One acknowledged record.
module _ (pn largest_pn ack_delay now : ℕ) (p : AckPass) (r : SentPacketRecord) where
  ack_record_effect :
      let q = ack_record pn largest_pn ack_delay now p r in
      (q.detector.sent_packets ≡ remove pn p.detector.sent_packets)
      × (q.detector.inflight_bytes ≡ p.detector.inflight_bytes - flight r)
      × (q.detector.largest_sent_packet ≡ p.detector.largest_sent_packet)
      × (q.acked_bytes
          ≡ (if r.in_flight then (p.acked_bytes + r.bytes) % 2 ^ 64 else p.acked_bytes))
  unfolding ack_record
  ack_record_effect = ground arith

-- The counter and the acknowledged bytes before and after the loop.
pub record Acked (p q : AckPass) : Type 0 where
  pub same_largest : q.detector.largest_sent_packet ≡ p.detector.largest_sent_packet
  pub settled :
      q.detector.inflight_bytes + q.acked_bytes ≡ p.detector.inflight_bytes + p.acked_bytes
  pub still : IsConsistent q.detector

ack_record-Acked :
    (pn largest_pn ack_delay now : ℕ) (p : AckPass) (r : SentPacketRecord)
    → IsConsistent p.detector
    → p.detector.inflight_bytes + p.acked_bytes < 2 ^ 64
    → lookup pn p.detector.sent_packets ≡ some r
    → Acked p (ack_record pn largest_pn ack_delay now p r)
ack_record-Acked pn largest_pn ack_delay now p r c room found =
    let (packets, inflight, largest, bytes) = ack_record_effect pn largest_pn ack_delay now p r in
    let less = scan-remove p.detector.sent_packets pn r found in
    record {
      same_largest = largest;
      settled = ground (arith, packets, inflight, bytes, less, c.counted);
      still =
          rw (packets, inflight, largest)
            (record {
              ascending = remove-Ascending p.detector.sent_packets 0 pn c.ascending;
              bounded = remove-KeysBelow p.detector.sent_packets _ pn c.bounded;
              counted = ground (arith, less, c.counted);
            });
    }

on_found-Acked :
    (pn largest_pn ack_delay now : ℕ) (p : AckPass)
    → IsConsistent p.detector
    → p.detector.inflight_bytes + p.acked_bytes < 2 ^ 64
    → Acked p
        (on_found (lookup pn p.detector.sent_packets) p (ack_record pn largest_pn ack_delay now p))
on_found-Acked pn largest_pn ack_delay now p c room =
    elim (Option-cases (lookup pn p.detector.sent_packets)) [
      | inl missing ↦ rw missing (record { same_largest = refl; settled = refl; still = c })
      | inr (r, found) ↦ rw found (ack_record-Acked pn largest_pn ack_delay now p r c room found)
    ]

Acked-trans : (p q r : AckPass) → Acked p q → Acked q r → Acked p r
Acked-trans p q r a b = record {
  same_largest = b.same_largest ∙ a.same_largest;
  settled = b.settled ∙ a.settled;
  still = b.still;
}

-- Acknowledging any numbers moves their bytes from the counter to the acknowledged bytes.
pub ack_loop-Acked :
    (largest_pn ack_delay now : ℕ) (pns : List ℕ) (p : AckPass)
    → IsConsistent p.detector
    → p.detector.inflight_bytes + p.acked_bytes < 2 ^ 64
    → Acked p (ack_loop largest_pn ack_delay now pns p)
unfolding ack_loop
ack_loop-Acked largest_pn ack_delay now [] p c room = record {
  same_largest = refl;
  settled = refl;
  still = c;
}
ack_loop-Acked largest_pn ack_delay now (pn ∷ pns) p c room =
    let first = on_found-Acked pn largest_pn ack_delay now p c room in
    Acked-trans p _ _ first
      (ack_loop-Acked largest_pn ack_delay now pns _ first.still (omega (arith, first.settled)))
