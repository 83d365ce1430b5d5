-- ===== src/Recovery/AckFrame/Meaning.antt =====
-- The frame's ranges against the blocks of the tracker, and against the numbers received.
use gtp_rs.Base.{ℕ, zero, suc, ◌+◌, ◌-◌, ◌%◌, ◌^◌, ◌<◌, ◌≤◌, ◌≡◌, refl, arith, ◌∙◌, ap, inl, inr}
use gtp_rs.Base.{true, false, ◌&&◌, ltb, leb, if◌then◌else◌, List, [], ◌∷◌, ◌++◌, take}
use gtp_rs.Base.{some, contains, contains-append, take-length-append, Bool-cases, lt→ltb}
use gtp_rs.Wire.Frame.{AckRange}
use gtp_rs.Recovery.AckTracker.Intervals.{PacketInterval}
use gtp_rs.Recovery.AckTracker.Coverage.{covers, Below}
use gtp_rs.Recovery.AckTracker.{AckTracker, used_ranges, later_ranges, peek_ack_frame}
use gtp_rs.Recovery.LossDetector.Ranges.{
  count_down, parse_loop, parse_ack_ranges, max_acked_per_frame,
}
use gtp_rs.Recovery.AckFrame.{size, numbers_of, fitting, acknowledged}

contains-count_down :
    (n high x : ℕ)
    → n ≤ high + 1
    → contains (count_down n high) x ≡ (ltb high (x + n) && leb x high)
unfolding count_down
contains-count_down zero high x h = ground arith
contains-count_down (suc n) high x h =
    ground (arith, contains-count_down n (high - 1) x (omega arith))

-- The numbers of ordered blocks are those that the blocks cover.
pub contains-numbers_of :
    (ivs : List PacketInterval) (bound x : ℕ)
    → Below bound ivs
    → contains (numbers_of ivs) x ≡ covers ivs x
contains-numbers_of [] bound x h = refl
contains-numbers_of (iv ∷ ivs) bound x h = ground (
  arith,
  contains-append (count_down (size iv) iv.end) (numbers_of ivs) x,
  contains-count_down (size iv) iv.end x,
  contains-numbers_of ivs iv.start x h.2,
)

pub take-Below :
    (n : ℕ) (ivs : List PacketInterval) (bound : ℕ) → Below bound ivs → Below bound (take n ivs)
take-Below zero ivs bound h = tt
take-Below (suc n) [] bound h = tt
take-Below (suc n) (iv ∷ ivs) bound h = (h.0, h.1, take-Below n ivs iv.start h.2)

later-fitting :
    (ivs : List PacketInterval) (prev total : ℕ)
    → Below prev ivs
    → prev < 2 ^ 32
    → parse_loop false prev total (later_ranges prev ivs) ≡ numbers_of (fitting total ivs)
unfolding parse_loop
later-fitting [] prev total h small = refl
later-fitting (iv ∷ ivs) prev total h small =
    rw (gap, span, high, low)
      (ground (arith, later-fitting ivs iv.start (total + size iv) h.2 (omega arith)))
  where
    gap : (prev - (iv.end + 1) % 2 ^ 64) % 2 ^ 32 ≡ prev - (iv.end + 1)
    gap = omega arith

    span : (iv.end - iv.start) % 2 ^ 32 ≡ iv.end - iv.start
    span = omega arith

    high : prev - (prev - (iv.end + 1)) - 1 ≡ iv.end
    high = omega arith

    low : iv.end - (iv.end - iv.start) ≡ iv.start
    low = omega arith

first_range :
    (iv : PacketInterval) (ranges : List AckRange)
    → iv.start ≤ iv.end
    → iv.end < 2 ^ 32
    → parse_loop true iv.end 0 (record { gap = 0; length = (iv.end - iv.start) % 2 ^ 32 } ∷ ranges)
      ≡ (if ltb max_acked_per_frame (0 + size iv)
          then []
          else count_down (size iv) iv.end ++ parse_loop false iv.start (0 + size iv) ranges)
unfolding parse_loop
first_range iv ranges order small = rw (span, low) (ground arith)
  where
    span : (iv.end - iv.start) % 2 ^ 32 ≡ iv.end - iv.start
    span = omega arith

    low : iv.end - (iv.end - iv.start) ≡ iv.start
    low = omega arith

-- The parser reads exactly the numbers of the blocks that fit, out of the newest 32.
ranges-fitting :
    (iv : PacketInterval) (ivs : List PacketInterval) (bound : ℕ)
    → Below bound (iv ∷ ivs)
    → bound ≤ 2 ^ 32
    → parse_loop true iv.end 0 (used_ranges (iv ∷ ivs)) ≡ numbers_of (fitting 0 (iv ∷ take 31 ivs))
ranges-fitting iv ivs bound h small =
    first_range iv (later_ranges iv.start (take 31 ivs)) h.1 (omega arith)
    ∙ elim (Bool-cases (ltb max_acked_per_frame (0 + size iv))) [
      | inl large ↦ rw large
      | inr fits ↦ rw fits (
          ap (λ (l : List ℕ). count_down (size iv) iv.end ++ l)
            (later-fitting (take 31 ivs) iv.start (0 + size iv) (take-Below 31 ivs iv.start h.2)
              (omega arith)))
    ]

-- A tracker as it is after arrivals: its first block ends at the largest number received.
pub record IsTopped (t : AckTracker) (largest : ℕ) (iv : PacketInterval) (ivs : List PacketInterval)
    : Type 0 where
  pub largest_is : t.largest_received ≡ some largest
  pub blocks_are : t.intervals ≡ iv ∷ ivs
  pub ordered : Below (2 ^ 32) (iv ∷ ivs)
  pub top : iv.end ≡ largest

-- The sender takes as acknowledged exactly the numbers of the newest 32 blocks, cut before the
-- first block at which they would exceed 16384.
pub acknowledged-fitting :
    (t : AckTracker) (now largest : ℕ) (iv : PacketInterval) (ivs : List PacketInterval)
    → IsTopped t largest iv ivs
    → acknowledged t now ≡ numbers_of (fitting 0 (take 32 t.intervals))
unfolding acknowledged peek_ack_frame parse_ack_ranges
acknowledged-fitting t now largest iv ivs h =
    rw (h.largest_is, h.blocks_are, ← h.top)
      (ap (parse_loop true iv.end 0) (take-length-append (used_ranges (iv ∷ ivs)) _)
        ∙ ranges-fitting iv ivs (2 ^ 32) h.ordered (omega arith))

-- The acknowledgements stall: once the newest block holds more than 16384 consecutive numbers, the
-- sender reads no acknowledgement at all from the frame.
pub acknowledged_stall :
    (t : AckTracker) (now largest : ℕ) (iv : PacketInterval) (ivs : List PacketInterval)
    → IsTopped t largest iv ivs
    → 16384 < size iv
    → acknowledged t now ≡ []
acknowledged_stall t now largest iv ivs h long =
    acknowledged-fitting t now largest iv ivs h
    ∙ rw (h.blocks_are, lt→ltb 16384 (0 + size iv) (omega arith))
