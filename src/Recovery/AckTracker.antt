-- ===== src/Recovery/AckTracker.antt =====
-- crates/gtp-recovery/src/ack_tracker.rs. Numbers are u64, `+ 1` wraps as in a release build;
-- counters saturate at their widths.
pub mod Intervals
pub mod Coverage
pub mod Received
use gtp_rs.Base.{
  ℕ, zero, suc, ◌+◌, ◌-◌, ◌*◌, ◌%◌, ◌^◌, Bool, true, false, not, ◌&&◌, ◌||◌, ltb, leb, ◌==◌,
  if◌then◌else◌,
}
use gtp_rs.Base.{List, [], ◌∷◌, ◌++◌, Option, none, some, length, take, replicate, min, max}
use gtp_rs.Types.Time.{duration_since, from_millis}
use gtp_rs.Wire.Frame.{AckRange, AckFields, default_range, max_ack_ranges}
use Intervals.{PacketInterval, insert_packet, retain_above}

abbrev pub ack_retention_window : ℕ
ack_retention_window = 1024

pub record AckTracker : Type 0 where
  pub intervals : List PacketInterval
  pub largest_received : Option ℕ
  pub largest_received_time : ℕ
  pub unacked_packet_count : ℕ
  pub last_ack_sent_time : Option ℕ
  pub ack_frequency : ℕ
  pub max_ack_delay : ℕ
  pub ect0_count : ℕ
  pub ect1_count : ℕ
  pub ce_count : ℕ
  pub has_gap : Bool

unfoldable pub new : AckTracker
new = record {
  intervals = [];
  largest_received = none;
  largest_received_time = 0;
  unacked_packet_count = 0;
  last_ack_sent_time = none;
  ack_frequency = 2;
  max_ack_delay = from_millis 25;
  ect0_count = 0;
  ect1_count = 0;
  ce_count = 0;
  has_gap = false;
}

unfoldable pub with_policy : ℕ → ℕ → AckTracker
with_policy frequency delay = record new { ack_frequency = max frequency 1; max_ack_delay = delay }

unfoldable pub set_policy : AckTracker → ℕ → ℕ → AckTracker
set_policy t frequency delay = record t { ack_frequency = max frequency 1; max_ack_delay = delay }

-- `saturating_add(1)` on a u32 and on a u8.
abbrev pub bump_u32 : ℕ → ℕ
bump_u32 n = min (n + 1) (2 ^ 32 - 1)

abbrev pub bump_u8 : ℕ → ℕ
bump_u8 n = min (n + 1) 255

unfoldable pub count_ecn : AckTracker → ℕ → AckTracker
count_ecn t ecn_bits =
    if ecn_bits == 1
    then record t { ect1_count = bump_u32 t.ect1_count }
    else if ecn_bits == 2
    then record t { ect0_count = bump_u32 t.ect0_count }
    else if ecn_bits == 3
    then record t { ce_count = bump_u32 t.ce_count }
    else t

abbrev or_now : Option ℕ → ℕ → Option ℕ
or_now none now = some now
or_now (some t) now = some t

abbrev is_new_largest : Option ℕ → ℕ → Bool
is_new_largest none pn = true
is_new_largest (some l) pn = ltb l pn

-- `pn > prev + 1`, where there was a previous largest number.
abbrev leaves_gap : Option ℕ → ℕ → Bool
leaves_gap none pn = false
leaves_gap (some l) pn = ltb ((l + 1) % 2 ^ 64) pn

unfoldable pub update_largest : AckTracker → ℕ → ℕ → AckTracker
update_largest t pn now =
    if is_new_largest t.largest_received pn
    then record t {
      has_gap = t.has_gap || leaves_gap t.largest_received pn;
      largest_received = some pn;
      largest_received_time = now;
    }
    else t

abbrev prune_below : Option ℕ → List PacketInterval → List PacketInterval
prune_below none ivs = ivs
prune_below (some largest) ivs = retain_above (largest - ack_retention_window) ivs

unfoldable pub prune_old_intervals : AckTracker → AckTracker
prune_old_intervals t = record t { intervals = prune_below t.largest_received t.intervals }

unfoldable pub on_packet_received : AckTracker → ℕ → Bool → ℕ → ℕ → AckTracker
on_packet_received t pn is_ack_eliciting ecn_bits now =
    let counted = count_ecn t ecn_bits in
    let started = record counted { last_ack_sent_time = or_now counted.last_ack_sent_time now } in
    let updated = update_largest started pn now in
    let inserted = record updated { intervals = insert_packet pn updated.intervals } in
    let pruned = prune_old_intervals inserted in
    if is_ack_eliciting
    then record pruned { unacked_packet_count = bump_u8 pruned.unacked_packet_count }
    else pruned

abbrev timer_expired : Option ℕ → ℕ → ℕ → Bool
timer_expired none now delay = false
timer_expired (some last) now delay = leb delay (duration_since now last)

unfoldable pub should_send_ack : AckTracker → ℕ → Bool
should_send_ack t now =
    if t.unacked_packet_count == 0
    then false
    else if t.has_gap
    then true
    else if leb t.ack_frequency t.unacked_packet_count
    then true
    else timer_expired t.last_ack_sent_time now t.max_ack_delay

-- The ranges behind the first: the gap to the block before, and the size of the block less one.
abbrev pub later_ranges : ℕ → List PacketInterval → List AckRange
later_ranges prev_start [] = []
later_ranges prev_start (iv ∷ ivs) =
    record {
      gap = (prev_start - (iv.end + 1) % 2 ^ 64) % 2 ^ 32;
      length = (iv.end - iv.start) % 2 ^ 32;
    }
    ∷ later_ranges iv.start ivs

abbrev pub used_ranges : List PacketInterval → List AckRange
used_ranges [] = []
used_ranges (iv ∷ ivs) =
    record { gap = 0; length = (iv.end - iv.start) % 2 ^ 32 }
    ∷ later_ranges iv.start (take (max_ack_ranges - 1) ivs)

ack_fields : AckTracker → ℕ → ℕ → AckFields
ack_fields t now largest = record {
  largest_acked = largest;
  ack_delay_us = min (duration_since now t.largest_received_time) (2 ^ 32 - 1);
  ranges =
      used_ranges t.intervals
      ++ replicate (max_ack_ranges - length (used_ranges t.intervals)) default_range;
  range_count = length (used_ranges t.intervals);
  ect0_count = t.ect0_count;
  ect1_count = t.ect1_count;
  ce_count = t.ce_count;
}

abbrev map_largest {ℓ} : {A : Type ℓ} → Option ℕ → (ℕ → A) → Option A
map_largest none f = none
map_largest (some n) f = some (f n)

unfoldable pub peek_ack_frame : AckTracker → ℕ → Option AckFields
unfolding ack_fields
peek_ack_frame t now = map_largest t.largest_received (ack_fields t now)

unfoldable pub commit_ack_sent : AckTracker → ℕ → AckTracker
commit_ack_sent t now = record t {
  unacked_packet_count = 0;
  has_gap = false;
  last_ack_sent_time = some now;
}

-- `peek_ack_frame` and an immediate commit, where there is a frame.
abbrev committed : Option AckFields → AckTracker → ℕ → AckTracker
committed none t now = t
committed (some f) t now = commit_ack_sent t now

unfoldable pub generate_ack_frame : AckTracker → ℕ → AckTracker × Option AckFields
generate_ack_frame t now = let frame = peek_ack_frame t now in (committed frame t now, frame)
