-- ===== src/Recovery/LossDetector.antt =====
-- crates/gtp-recovery/src/loss_detector.rs and sent_packet.rs. The BTreeMap of sent packets is its
-- list of entries by rising packet number (`Sent`). The delivery rate is a floating-point quotient,
-- so it is the argument `rate`. Sums of plain u64 wrap.
pub mod Ranges
pub mod Sent
pub mod Flight
pub mod Accounting
pub mod Sweep
pub mod History
mod Examples
use gtp_rs.Base.{
  ℕ, zero, suc, ◌+◌, ◌-◌, ◌*◌, ◌/◌, ◌%◌, ◌^◌, min, max, Bool, true, false, not, ◌&&◌, ◌||◌, ltb,
  leb, ◌==◌,
}
use gtp_rs.Base.{if◌then◌else◌, List, [], ◌∷◌, ◌++◌, Option, none, some, length, is_empty}
use gtp_rs.Types.Time.{duration_since, saturating_add, saturating_mul}
use gtp_rs.Wire.Frame.{AckRange}
use gtp_rs.Recovery.Rtt.{RttStats, reset_for_new_path, pto_duration}
use gtp_rs.Recovery.Rtt
use Ranges.{parse_ack_ranges}
use Sent.{SentPacketRecord, RetransmissionRecord, SentPackets, insert, lookup, remove}

abbrev pub packet_threshold : ℕ
packet_threshold = 3

abbrev pub max_pto_retransmit_burst : ℕ
max_pto_retransmit_burst = 2

abbrev pub max_pto_backoff_exponent : ℕ
max_pto_backoff_exponent = 8

pub record AckEvent : Type 0 where
  pub largest_acked : ℕ
  pub acked_packets : List SentPacketRecord
  pub bytes_acked : ℕ
  pub rtt_sample : Option ℕ

pub record LossEvent : Type 0 where
  pub lost_packets : List SentPacketRecord
  pub bytes_lost : ℕ
  pub retransmittable : List RetransmissionRecord

pub record DeliveryRateSample : Type 0 where
  pub delivered_bytes : ℕ
  pub interval : ℕ
  pub rate_bytes_per_sec : ℕ

pub record LossDetector : Type 0 where
  pub rtt_stats : RttStats
  pub sent_packets : SentPackets
  pub inflight_bytes : ℕ
  pub largest_acked_packet : Option ℕ
  pub largest_sent_packet : ℕ
  pub time_of_last_ack_eliciting_packet : ℕ
  pub pto_count : ℕ
  pub total_bytes_sent : ℕ
  pub total_bytes_acked : ℕ
  pub last_delivery_rate_time : ℕ
  pub last_delivery_rate_bytes : ℕ
  pub rtt_sample_floor : ℕ

unfoldable pub new : LossDetector
new = record {
  rtt_stats = Rtt.new;
  sent_packets = [];
  inflight_bytes = 0;
  largest_acked_packet = none;
  largest_sent_packet = 0;
  time_of_last_ack_eliciting_packet = 0;
  pto_count = 0;
  total_bytes_sent = 0;
  total_bytes_acked = 0;
  last_delivery_rate_time = 0;
  last_delivery_rate_bytes = 0;
  rtt_sample_floor = 0;
}

unfoldable pub on_path_migration : LossDetector → ℕ → LossDetector
on_path_migration d first_pn = record d {
  rtt_stats = reset_for_new_path d.rtt_stats;
  rtt_sample_floor = first_pn;
}

unfoldable pub on_packet_sent : LossDetector → SentPacketRecord → LossDetector
on_packet_sent d r = record d {
  time_of_last_ack_eliciting_packet =
      if r.ack_eliciting then r.send_time else d.time_of_last_ack_eliciting_packet;
  total_bytes_sent = (d.total_bytes_sent + r.bytes) % 2 ^ 64;
  largest_sent_packet = max d.largest_sent_packet r.packet_number;
  inflight_bytes =
      if r.in_flight then saturating_add d.inflight_bytes r.bytes else d.inflight_bytes;
  sent_packets = insert r.packet_number r d.sent_packets;
}

unfoldable pub pto_duration_with_backoff : LossDetector → ℕ → ℕ
pto_duration_with_backoff d max_pto =
    min (saturating_mul (pto_duration d.rtt_stats) (2 ^ min d.pto_count max_pto_backoff_exponent))
      max_pto

-- The variables of the loop over the acknowledged numbers.
pub record AckPass : Type 0 where
  pub detector : LossDetector
  pub newly_acked : List SentPacketRecord
  pub acked_bytes : ℕ
  pub sample : Option ℕ

-- The bookkeeping for one record that an acknowledged number took out of the map.
unfoldable pub ack_record : ℕ → ℕ → ℕ → ℕ → AckPass → SentPacketRecord → AckPass
ack_record pn largest_pn ack_delay now p r =
    let d = record (p.detector) { sent_packets = remove pn p.detector.sent_packets } in
    let settled =
      if r.in_flight then record d { inflight_bytes = d.inflight_bytes - r.bytes } else d in
    let bytes = if r.in_flight then (p.acked_bytes + r.bytes) % 2 ^ 64 else p.acked_bytes in
    let measured = duration_since now r.send_time in
    if pn == largest_pn && leb d.rtt_sample_floor pn
    then record {
      detector = record settled { rtt_stats = Rtt.update settled.rtt_stats measured ack_delay };
      newly_acked = p.newly_acked ++ (r ∷ []);
      acked_bytes = bytes;
      sample = some measured;
    }
    else record {
      detector = settled;
      newly_acked = p.newly_acked ++ (r ∷ []);
      acked_bytes = bytes;
      sample = p.sample;
    }

abbrev on_found : Option SentPacketRecord → AckPass → (SentPacketRecord → AckPass) → AckPass
on_found none p f = p
on_found (some r) p f = f r

unfoldable pub ack_loop : ℕ → ℕ → ℕ → List ℕ → AckPass → AckPass
ack_loop largest_pn ack_delay now [] p = p
ack_loop largest_pn ack_delay now (pn ∷ pns) p =
    ack_loop largest_pn ack_delay now pns
      (on_found (lookup pn p.detector.sent_packets) p (ack_record pn largest_pn ack_delay now p))

-- `max(smoothed, latest) * 9 / 8`.
unfoldable pub time_threshold : RttStats → ℕ
time_threshold s = max s.smoothed_rtt s.latest_rtt * 9 % 2 ^ 64 / 8

unfoldable pub is_lost : ℕ → ℕ → ℕ → ℕ → SentPacketRecord → Bool
is_lost largest_pn now threshold pn r =
    if ltb largest_pn pn || not r.in_flight || not r.ack_eliciting
    then false
    else leb ((pn + packet_threshold) % 2 ^ 64) largest_pn
      || leb threshold (duration_since now r.send_time)

unfoldable pub lost_pns : ℕ → ℕ → ℕ → SentPackets → List ℕ
lost_pns largest_pn now threshold [] = []
lost_pns largest_pn now threshold ((pn, r) ∷ m) =
    let rest = lost_pns largest_pn now threshold m in
    if is_lost largest_pn now threshold pn r then pn ∷ rest else rest

-- The variables of the loop over the lost numbers.
pub record LossPass : Type 0 where
  pub packets : SentPackets
  pub inflight : ℕ
  pub lost : List SentPacketRecord
  pub lost_bytes : ℕ
  pub frames : List RetransmissionRecord

unfoldable pub lose_record : ℕ → LossPass → SentPacketRecord → LossPass
lose_record pn p r = record {
  packets = remove pn p.packets;
  inflight = if r.in_flight then p.inflight - r.bytes else p.inflight;
  lost = p.lost ++ (r ∷ []);
  lost_bytes = (p.lost_bytes + r.bytes) % 2 ^ 64;
  frames = p.frames ++ r.retransmittable_frames;
}

abbrev on_lost : Option SentPacketRecord → LossPass → (SentPacketRecord → LossPass) → LossPass
on_lost none p f = p
on_lost (some r) p f = f r

unfoldable pub loss_loop : List ℕ → LossPass → LossPass
loss_loop [] p = p
loss_loop (pn ∷ pns) p = loss_loop pns (on_lost (lookup pn p.packets) p (lose_record pn p))

abbrev new_largest : Option ℕ → ℕ → Option ℕ
new_largest none pn = some pn
new_largest (some l) pn = if ltb l pn then some pn else some l

-- The delivery-rate step: the detector after it, and the sample.
unfoldable pub delivery_step :
    (ℕ → ℕ → ℕ) → LossDetector → ℕ → LossDetector × Option DeliveryRateSample
delivery_step rate d now =
    let restarted = record d {
      last_delivery_rate_time = now;
      last_delivery_rate_bytes = d.total_bytes_acked;
    } in
    let interval = duration_since now d.last_delivery_rate_time in
    let delivered = d.total_bytes_acked - d.last_delivery_rate_bytes in
    if not (d.last_delivery_rate_time == 0)
    then if ltb 1000 interval
      then (
        restarted,
        some (record {
          delivered_bytes = delivered;
          interval = interval;
          rate_bytes_per_sec = rate delivered interval;
        }),
      )
      else (d, none)
    else (restarted, none)

pub record AckOutcome : Type 0 where
  pub after : LossDetector
  pub acks : AckEvent
  pub losses : LossEvent
  pub delivery : Option DeliveryRateSample

abbrev pub no_losses : LossEvent
no_losses = record { lost_packets = []; bytes_lost = 0; retransmittable = [] }

unfoldable pub detect_losses : LossDetector → ℕ → ℕ → LossPass
detect_losses d largest_pn now =
    loss_loop (lost_pns largest_pn now (time_threshold d.rtt_stats) d.sent_packets) (record {
      packets = d.sent_packets;
      inflight = d.inflight_bytes;
      lost = [];
      lost_bytes = 0;
      frames = [];
    })

unfoldable pub acknowledge : LossDetector → ℕ → ℕ → List AckRange → ℕ → ℕ → AckPass
acknowledge d largest_pn ack_delay ranges range_count now =
    ack_loop largest_pn ack_delay now (parse_ack_ranges largest_pn ranges range_count)
      (record { detector = d; newly_acked = []; acked_bytes = 0; sample = none })

-- The totals, the largest number and the timeout count after the loop over the acknowledged numbers.
unfoldable pub settle : AckPass → ℕ → LossDetector
settle p largest_pn =
    let d = p.detector in
    record d {
      total_bytes_acked = (d.total_bytes_acked + p.acked_bytes) % 2 ^ 64;
      largest_acked_packet = new_largest d.largest_acked_packet largest_pn;
      pto_count = if is_empty p.newly_acked then d.pto_count else 0;
    }

unfoldable pub on_ack_received :
    (ℕ → ℕ → ℕ) → LossDetector → ℕ → ℕ → List AckRange → ℕ → ℕ → AckOutcome
on_ack_received rate d largest_pn ack_delay ranges range_count now =
    let pass = acknowledge d largest_pn ack_delay ranges range_count now in
    let (timed, delivery) = delivery_step rate (settle pass largest_pn) now in
    let swept = detect_losses timed largest_pn now in
    if ltb d.largest_sent_packet largest_pn
    then record {
      after = d;
      acks = record {
        largest_acked = largest_pn;
        acked_packets = [];
        bytes_acked = 0;
        rtt_sample = none;
      };
      losses = no_losses;
      delivery = none;
    }
    else record {
      after = record timed { sent_packets = swept.packets; inflight_bytes = swept.inflight };
      acks = record {
        largest_acked = largest_pn;
        acked_packets = pass.newly_acked;
        bytes_acked = pass.acked_bytes;
        rtt_sample = pass.sample;
      };
      losses = record {
        lost_packets = swept.lost;
        bytes_lost = swept.lost_bytes;
        retransmittable = swept.frames;
      };
      delivery = delivery;
    }

-- The timeout's scan: at most `budget` in-flight numbers, oldest first, and their frames.
unfoldable pub drain : ℕ → SentPackets → List ℕ × List RetransmissionRecord
drain budget [] = ([], [])
drain zero (e ∷ m) = ([], [])
drain (suc budget) ((pn, r) ∷ m) = elim r.in_flight [
  | true ↦ let rest = drain budget m in (pn ∷ rest.0, r.retransmittable_frames ++ rest.1)
  | false ↦ drain (suc budget) m
]

-- The removal of the drained numbers, with the bytes of those in flight.
abbrev drained_bytes : Option SentPacketRecord → ℕ → ℕ
drained_bytes none bytes = bytes
drained_bytes (some r) bytes = if r.in_flight then saturating_add bytes r.bytes else bytes

unfoldable pub drain_loop : List ℕ → SentPackets → ℕ → SentPackets × ℕ
drain_loop [] m bytes = (m, bytes)
drain_loop (pn ∷ pns) m bytes = drain_loop pns (remove pn m) (drained_bytes (lookup pn m) bytes)

unfoldable pub on_timeout : LossDetector → LossDetector × LossEvent
on_timeout d =
    let (pns, frames) = drain max_pto_retransmit_burst d.sent_packets in
    let (left, bytes) = drain_loop pns d.sent_packets 0 in
    (
      record d {
        pto_count = min (d.pto_count + 1) (2 ^ 32 - 1);
        sent_packets = left;
        inflight_bytes = d.inflight_bytes - bytes;
      },
      record { lost_packets = []; bytes_lost = bytes; retransmittable = frames },
    )
