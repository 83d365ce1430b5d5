-- ===== src/Recovery/Owd.antt =====
-- crates/gtp-recovery/src/owd.rs: how far the one-way delay is above its floor, from the timestamps of
-- the packets. The signed numbers of the source are written out in natural ones.
pub mod Variance
pub mod Bounds
mod Examples
use gtp_rs.Base.{
  ℕ, ◌+◌, ◌-◌, ◌/◌, ◌%◌, ◌^◌, ltb, leb, if◌then◌else◌, Bool, true, false, Option, none, some,
}
use gtp_rs.Types.Time.{duration_since}

abbrev pub floor_reanchor_window : ℕ
floor_reanchor_window = 30000000

pub record OwdSample : Type 0 where
  pub owd_var_us : ℕ
  pub jitter_us : ℕ
  pub epoch : ℕ

pub record OwdEstimator : Type 0 where
  pub base_d : ℕ
  pub prev_owd_var : ℕ
  pub jitter : ℕ
  pub floor_time : ℕ
  pub has_sample : Bool

abbrev pub new : OwdEstimator
new = record { base_d = 0; prev_owd_var = 0; jitter = 0; floor_time = 0; has_sample = false }

-- `wrapping_sub` of u32.
abbrev pub wrapping_sub : ℕ → ℕ → ℕ
wrapping_sub a b = (a + (2 ^ 32 - b)) % 2 ^ 32

abbrev pub sample : OwdEstimator → OwdSample
sample e = record { owd_var_us = e.prev_owd_var; jitter_us = e.jitter; epoch = 0 }

-- The floor is `d` from now on.
abbrev anchored : OwdEstimator → ℕ → ℕ → OwdEstimator
anchored e d now = record e { base_d = d; floor_time = now }

-- `|a - b|`.
abbrev pub abs_diff : ℕ → ℕ → ℕ
abs_diff a b = if leb b a then a - b else b - a

-- One sixteenth of the way to the new deviation, rounded towards 0.
unfoldable pub next_jitter : ℕ → ℕ → ℕ
next_jitter jitter diff =
    if leb jitter diff then jitter + (diff - jitter) / 16 else jitter - (jitter - diff) / 16

-- A floor that is too old is replaced.
unfoldable pub refresh : OwdEstimator → ℕ → ℕ → OwdEstimator
refresh e d now =
    if ltb floor_reanchor_window (duration_since now e.floor_time) then anchored e d now else e

abbrev pub measure : OwdEstimator → ℕ → OwdEstimator
measure e owd_var = record e {
  jitter = next_jitter e.jitter (abs_diff owd_var e.prev_owd_var);
  prev_owd_var = owd_var;
}

-- The difference to the floor, as an i32: negative from 2 ^ 31 on.
unfoldable pub observe : OwdEstimator → ℕ → ℕ → OwdEstimator
observe e d now =
    if leb (2 ^ 31) (wrapping_sub d e.base_d)
    then measure (anchored e d now) 0
    else measure e (wrapping_sub d e.base_d)

unfoldable pub on_packet : OwdEstimator → ℕ → ℕ → OwdEstimator × OwdSample
on_packet e ts_peer now =
    let d = wrapping_sub (now % 2 ^ 32) ts_peer in
    let first : OwdEstimator = record e {
      has_sample = true;
      base_d = d;
      floor_time = now;
      prev_owd_var = 0;
    } in
    let later = observe (refresh e d now) d now in
    if e.has_sample then (later, sample later) else (first, sample first)

abbrev pub is_ready : OwdEstimator → Bool
is_ready e = e.has_sample

abbrev pub owd_var : OwdEstimator → Option ℕ
owd_var e = if e.has_sample then some e.prev_owd_var else none

abbrev pub jitter_of : OwdEstimator → Option ℕ
jitter_of e = if e.has_sample then some e.jitter else none

abbrev pub reset_for_new_path : OwdEstimator → OwdEstimator
reset_for_new_path e = new
