-- ===== src/Recovery/Rtt.antt =====
-- crates/gtp-recovery/src/rtt.rs: RFC 9002 RTT statistics, in microseconds.
-- Sums and products of plain u64 wrap; those of `Duration` saturate.
pub mod Bounds
mod Examples
use gtp_rs.Base.{
  ℕ, ◌+◌, ◌-◌, ◌*◌, ◌/◌, ◌%◌, ◌^◌, min, max, Bool, true, false, ltb, leb, if◌then◌else◌, Option,
  none, some,
}
use gtp_rs.Types.Time.{u64_max, saturating_add, from_millis}

abbrev pub initial_rtt : ℕ
initial_rtt = from_millis 100

abbrev pub default_max_ack_delay : ℕ
default_max_ack_delay = from_millis 25

pub record RttStats : Type 0 where
  pub latest_rtt : ℕ
  pub smoothed_rtt : ℕ
  pub rttvar : ℕ
  pub min_rtt : ℕ
  pub max_ack_delay : ℕ
  pub first_sample : Bool

unfoldable pub new : RttStats
new = record {
  latest_rtt = initial_rtt;
  smoothed_rtt = initial_rtt;
  rttvar = initial_rtt / 2;
  min_rtt = u64_max;
  max_ack_delay = default_max_ack_delay;
  first_sample = true;
}

unfoldable pub min_rtt_sample : RttStats → Option ℕ
min_rtt_sample s = if s.first_sample then none else some s.min_rtt

unfoldable pub reset_for_new_path : RttStats → RttStats
reset_for_new_path s = record new { max_ack_delay = s.max_ack_delay }

-- The sample less the peer's delay, where that leaves at least the floor `floor`.
unfoldable pub adjusted : RttStats → ℕ → ℕ → ℕ → ℕ
adjusted s floor raw ack_delay =
    if s.first_sample
    then raw
    else let clamped = min ack_delay s.max_ack_delay in
      if ltb (saturating_add floor clamped) raw then raw - clamped else raw

-- `|a - b|` as the code branches.
unfoldable pub rtt_diff : ℕ → ℕ → ℕ
rtt_diff smoothed sample = if leb sample smoothed then smoothed - sample else sample - smoothed

unfoldable pub update : RttStats → ℕ → ℕ → RttStats
update s raw ack_delay =
    let floor = min s.min_rtt raw in
    let sample = adjusted s floor raw ack_delay in
    if s.first_sample
    then record s {
      min_rtt = floor;
      latest_rtt = sample;
      first_sample = false;
      smoothed_rtt = sample;
      rttvar = sample / 2;
    }
    else record s {
      min_rtt = floor;
      latest_rtt = sample;
      rttvar = (s.rttvar * 3 + rtt_diff s.smoothed_rtt sample) % 2 ^ 64 / 4;
      smoothed_rtt = (s.smoothed_rtt * 7 + sample) % 2 ^ 64 / 8;
    }

unfoldable pub pto_duration : RttStats → ℕ
pto_duration s =
    max (saturating_add (saturating_add s.smoothed_rtt (s.rttvar * 4 % 2 ^ 64)) s.max_ack_delay)
      (from_millis 1)
