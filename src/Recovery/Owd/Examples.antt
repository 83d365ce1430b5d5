-- ===== src/Recovery/Owd/Examples.antt =====
-- A peer whose clock is behind ours, and the theorems there.
use gtp_rs.Base.{ℕ, ◌<◌, ◌^◌, ◌≡◌, arith, some, List, [], ◌∷◌}
use gtp_rs.Recovery.Owd.{new, owd_var}
use gtp_rs.Recovery.Owd.Variance.{Arrival, receive, receive-variance}
use gtp_rs.Recovery.Owd.Bounds.{receive_any, receive_any-bounded}

-- Delays of 500, 800 and 450 microseconds, across the wrap of the 32-bit clock, then 600.
abbrev more : List Arrival
more =
    record { sent = 4294966000; delay = 800 }
    ∷ record { sent = 4294967200; delay = 450 }
    ∷ record { sent = 4294968000; delay = 600 }
    ∷ []

receive-variance_example :
    owd_var (receive 123456 new (record { sent = 4294965000; delay = 500 } ∷ more)) ≡ some 150
receive-variance_example =
    receive-variance 123456 (record { sent = 4294965000; delay = 500 }) more (omega arith)
      (omega arith)
      (
        omega arith,
        omega arith,
        omega arith,
        (omega arith, omega arith, omega arith, (omega arith, omega arith, omega arith, tt)),
      )

abbrev hostile : List (ℕ × ℕ)
hostile = (0, 5000) ∷ (4294967295, 6000) ∷ (17, 90000000) ∷ []

receive_any-bounded_example :
    ((receive_any new hostile).prev_owd_var < 2 ^ 31) × ((receive_any new hostile).jitter < 2 ^ 31)
receive_any-bounded_example = receive_any-bounded hostile
