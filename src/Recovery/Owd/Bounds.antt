-- ===== src/Recovery/Owd/Bounds.antt =====
-- The estimate stays within the machine's signed numbers.
use gtp_rs.Base.{
  ℕ, ◌-◌, ◌%◌, ◌^◌, ◌≤◌, ◌<◌, arith, ltb, leb, Bool-cases, true, inl, inr, List, [], ◌∷◌,
}
use gtp_rs.Types.Time.{duration_since}
use gtp_rs.Recovery.Owd.{
  OwdEstimator, new, wrapping_sub, next_jitter, abs_diff, refresh, observe, measure, on_packet,
  floor_reanchor_window,
}

next_jitter-le : (j d m : ℕ) → j ≤ m → d ≤ m → next_jitter j d ≤ m
unfolding next_jitter
next_jitter-le j d m hj hd = elim (Bool-cases (leb j d)) [
  | inl up ↦ rw up (omega (arith, hj, hd))
  | inr down ↦ rw down (omega (arith, hj))
]

abs_diff-le : (a b m : ℕ) → a ≤ m → b ≤ m → abs_diff a b ≤ m
abs_diff-le a b m ha hb = ground arith

-- What the estimator shows is below 2 ^ 31.
abbrev IsSmall : OwdEstimator → Type 0
IsSmall e = (e.prev_owd_var ≤ 2 ^ 31 - 1) × (e.jitter ≤ 2 ^ 31 - 1)

measure-IsSmall : (e : OwdEstimator) (v : ℕ) → IsSmall e → v ≤ 2 ^ 31 - 1 → IsSmall (measure e v)
measure-IsSmall e v h small = (
  small,
  next_jitter-le e.jitter (abs_diff v e.prev_owd_var) (2 ^ 31 - 1) h.1
      (abs_diff-le v e.prev_owd_var (2 ^ 31 - 1) small h.0),
)

refresh-IsSmall : (e : OwdEstimator) (d now : ℕ) → IsSmall e → IsSmall (refresh e d now)
unfolding refresh
refresh-IsSmall e d now h =
    elim (Bool-cases (ltb floor_reanchor_window (duration_since now e.floor_time))) [
      | inl old ↦ rw old h
      | inr young ↦ rw young h
    ]

observe-IsSmall : (e : OwdEstimator) (d now : ℕ) → IsSmall e → IsSmall (observe e d now)
unfolding observe
observe-IsSmall e d now h = elim (Bool-cases (leb (2 ^ 31) (wrapping_sub d e.base_d))) [
  | inl negative ↦
      rw negative (measure-IsSmall (record e { base_d = d; floor_time = now }) 0 h (omega arith))
  | inr positive ↦ rw positive (measure-IsSmall e (wrapping_sub d e.base_d) h (ground arith))
]

on_packet-IsSmall : (e : OwdEstimator) (ts now : ℕ) → IsSmall e → IsSmall (on_packet e ts now).0
unfolding on_packet
on_packet-IsSmall e ts now h = elim (Bool-cases e.has_sample) [
  | inl later ↦
      let d : ℕ = wrapping_sub (now % 2 ^ 32) ts in
      let known : OwdEstimator = record e { has_sample = true } in
      rw later (observe-IsSmall (refresh known d now) d now (refresh-IsSmall known d now h))
  | inr first ↦ rw first (omega arith, h.1)
]

-- Any packets: their timestamps, and the times at which they arrive.
abbrev pub receive_any : OwdEstimator → List (ℕ × ℕ) → OwdEstimator
receive_any e [] = e
receive_any e ((ts_peer, now) ∷ more) = receive_any (on_packet e ts_peer now).0 more

receive_any-IsSmall :
    (e : OwdEstimator) (more : List (ℕ × ℕ)) → IsSmall e → IsSmall (receive_any e more)
receive_any-IsSmall e [] h = h
receive_any-IsSmall e ((ts, now) ∷ more) h =
    receive_any-IsSmall (on_packet e ts now).0 more (on_packet-IsSmall e ts now h)

-- Whatever timestamps a peer writes and whenever they arrive, the variance and the jitter stay below
-- 2^31 microseconds, so that the source's conversions between signed and unsigned lose nothing.
pub receive_any-bounded :
    (packets : List (ℕ × ℕ))
    → ((receive_any new packets).prev_owd_var < 2 ^ 31)
      × ((receive_any new packets).jitter < 2 ^ 31)
receive_any-bounded packets =
    let (variance, jitter) = receive_any-IsSmall new packets (omega arith, omega arith) in
    (omega (arith, variance), omega (arith, jitter))
