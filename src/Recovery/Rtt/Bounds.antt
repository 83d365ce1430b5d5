-- ===== src/Recovery/Rtt/Bounds.antt =====
-- Bounds on the estimates.
use gtp_rs.Base.{ℕ, ◌^◌, ◌<◌, ◌≤◌, ◌≡◌, true, false, arith, refl, List, [], ◌∷◌, All}
use gtp_rs.Types.Time.{from_millis}
use gtp_rs.Recovery.Rtt.{RttStats, new, update, adjusted, rtt_diff, pto_duration}

-- The longest time that keeps every sum of the estimator within a u64 (about 36,000 years).
abbrev pub sane : ℕ
sane = 2 ^ 60

-- After a first sample: no estimate lies below the floor or above `hi`.
pub record Within (lo hi : ℕ) (s : RttStats) : Type 0 where
  pub sampled : s.first_sample ≡ false
  pub floor_low : lo ≤ s.min_rtt
  pub latest_low : s.min_rtt ≤ s.latest_rtt
  pub smoothed_low : s.min_rtt ≤ s.smoothed_rtt
  pub latest_high : s.latest_rtt ≤ hi
  pub smoothed_high : s.smoothed_rtt ≤ hi
  pub variance_high : s.rttvar ≤ hi

update_first-Within :
    (s : RttStats) (raw ack_delay lo hi : ℕ)
    → s.first_sample ≡ true
    → lo ≤ s.min_rtt
    → lo ≤ raw
    → raw ≤ hi
    → Within lo hi (update s raw ack_delay)
unfolding update adjusted
update_first-Within s raw ack_delay lo hi f l r h = ground arith

update_next-Within :
    (s : RttStats) (raw ack_delay lo hi : ℕ)
    → hi < sane
    → Within lo hi s
    → lo ≤ raw
    → raw ≤ hi
    → Within lo hi (update s raw ack_delay)
unfolding update adjusted rtt_diff
update_next-Within s raw ack_delay lo hi k w r h = ground arith

pub record Sample : Type 0 where
  pub raw : ℕ
  pub ack_delay : ℕ

unfoldable pub update_all : RttStats → List Sample → RttStats
update_all s [] = s
update_all s (x ∷ earlier) = update (update_all s earlier) x.raw x.ack_delay

abbrev pub InRange : ℕ → ℕ → Sample → Type 0
InRange lo hi x = (lo ≤ x.raw) × (x.raw ≤ hi)

-- Whatever acknowledgement delays the peer reports: after one or more samples between `lo` and `hi`
-- (below 2^60 microseconds) the floor, the latest and the smoothed RTT lie between `lo` and `hi`,
-- the latest and the smoothed RTT are not below the floor, and the variance is at most `hi`.
pub update_all-Within :
    (lo hi : ℕ) (x : Sample) (samples : List Sample)
    → hi < sane
    → InRange lo hi x
    → All (InRange lo hi) samples
    → Within lo hi (update_all new (x ∷ samples))
unfolding update_all
update_all-Within lo hi x [] k h hs =
    update_first-Within new x.raw x.ack_delay lo hi (unfold new in refl) (unfold new in omega arith)
      h.0 h.1
update_all-Within lo hi x (y ∷ earlier) k h hs =
    update_next-Within (update_all new (y ∷ earlier)) x.raw x.ack_delay lo hi k
      (update_all-Within lo hi y earlier k hs.0 hs.1) h.0 h.1

-- The probe timeout is at least a millisecond, and at least the smoothed RTT while that fits.
pub pto_duration_bounds :
    (s : RttStats)
    → s.smoothed_rtt < 2 ^ 64
    → (from_millis 1 ≤ pto_duration s) × (s.smoothed_rtt ≤ pto_duration s)
unfolding pto_duration
pto_duration_bounds s h = ground arith
