-- ===== src/Recovery/AckFrame.antt =====
-- What an ACK frame of the receiver's tracker (ack_tracker.rs) means to the sender's loss detector
-- (loss_detector.rs).
pub mod Meaning
pub mod Delivery
pub mod Stall
mod Examples
use gtp_rs.Base.{ℕ, ◌+◌, ◌-◌, ltb, if◌then◌else◌, List, [], ◌∷◌, ◌++◌, Option, none, some}
use gtp_rs.Wire.Frame.{AckFields}
use gtp_rs.Recovery.AckTracker.Intervals.{PacketInterval}
use gtp_rs.Recovery.AckTracker.{AckTracker, peek_ack_frame}
use gtp_rs.Recovery.LossDetector.Ranges.{count_down, parse_ack_ranges, max_acked_per_frame}

abbrev pub size : PacketInterval → ℕ
size iv = iv.end - iv.start + 1

-- The numbers of some blocks, from the newest down.
abbrev pub numbers_of : List PacketInterval → List ℕ
numbers_of [] = []
numbers_of (iv ∷ ivs) = count_down (size iv) iv.end ++ numbers_of ivs

-- The blocks up to the first at which more than 16384 numbers would be acknowledged.
abbrev pub fitting : ℕ → List PacketInterval → List PacketInterval
fitting total [] = []
fitting total (iv ∷ ivs) =
    let rest = fitting (total + size iv) ivs in
    if ltb max_acked_per_frame (total + size iv) then [] else iv ∷ rest

-- What the sender reads from a frame.
abbrev pub read_frame : Option AckFields → List ℕ
read_frame none = []
read_frame (some f) = parse_ack_ranges f.largest_acked f.ranges f.range_count

-- What the sender takes as acknowledged when the receiver sends its frame at `now`.
unfoldable pub acknowledged : AckTracker → ℕ → List ℕ
acknowledged t now = read_frame (peek_ack_frame t now)
