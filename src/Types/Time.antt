-- ===== src/Types/Time.antt =====
-- crates/gtp-types/src/time.rs: microseconds in a u64, with saturating arithmetic.
-- `now` reads the clock of the machine and is an argument wherever it is used.
use gtp_rs.Base.{ℕ, ◌+◌, ◌-◌, ◌*◌, ◌/◌, ◌^◌, min}

abbrev pub u64_max : ℕ
u64_max = 2 ^ 64 - 1

-- `saturating_add` and `saturating_mul` of u64; `saturating_sub` is the subtraction of ℕ.
abbrev pub saturating_add : ℕ → ℕ → ℕ
saturating_add a b = min (a + b) u64_max

abbrev pub saturating_mul : ℕ → ℕ → ℕ
saturating_mul a b = min (a * b) u64_max

-- `MonotonicTime::duration_since` and `Sub`.
abbrev pub duration_since : ℕ → ℕ → ℕ
duration_since now earlier = now - earlier

-- `MonotonicTime + Duration`.
abbrev pub time_add : ℕ → ℕ → ℕ
time_add t d = saturating_add t d

abbrev pub from_millis : ℕ → ℕ
from_millis ms = saturating_mul ms 1000

abbrev pub from_secs : ℕ → ℕ
from_secs s = saturating_mul s 1000000

abbrev pub as_millis : ℕ → ℕ
as_millis us = us / 1000
