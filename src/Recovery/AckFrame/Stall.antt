-- ===== src/Recovery/AckFrame/Stall.antt =====
-- A receiver that loses nothing: its one block grows with every packet, and past 16384 numbers
-- the sender's parser gives the whole frame up.
use gtp_rs.Base.{ℕ, zero, suc, ◌+◌, ◌-◌, ◌^◌, ◌<◌, ◌≡◌, refl, arith, ◌∙◌}
use gtp_rs.Base.{List, [], ◌∷◌, Option, none, some}
use gtp_rs.Recovery.AckTracker.Intervals.{
  PacketInterval, insert_packet, insert_loop, merge_adjacent, merge_from, retain_above,
}
use gtp_rs.Recovery.AckTracker.{AckTracker, new, on_packet_received}
use gtp_rs.Recovery.AckTracker.Received.{
  Arrival, numbers, receive_all, next_largest, received_intervals, received_largest,
}
use gtp_rs.Recovery.LossDetector.Ranges.{count_down}
use gtp_rs.Recovery.AckFrame.{acknowledged}
use gtp_rs.Recovery.AckFrame.Meaning.{acknowledged_stall}

abbrev one_block : ℕ → List PacketInterval
one_block zero = []
one_block (suc n) = record { start = 1; end = suc n } ∷ []

abbrev up_to : ℕ → Option ℕ
up_to zero = none
up_to (suc n) = some (suc n)

next-up_to : (n : ℕ) → next_largest (up_to n) (suc n) ≡ some (suc n)
unfolding next_largest
next-up_to zero = refl
next-up_to (suc n) = ground arith

insert-one_block :
    (n : ℕ)
    → suc n + 1 < 2 ^ 32
    → retain_above (suc n - 1024) (insert_packet (suc n) (one_block n)) ≡ one_block (suc n)
unfolding retain_above insert_packet insert_loop merge_adjacent merge_from
insert-one_block zero h = ground arith
insert-one_block (suc n) h = ground arith

-- The tracker after the packets n, n - 1, …, 1 (newest first in the list).
record InOrder (n : ℕ) (t : AckTracker) : Type 0 where
  blocks : t.intervals ≡ one_block n
  largest : t.largest_received ≡ up_to n

InOrder-step :
    (n : ℕ) (t : AckTracker) (a : Arrival)
    → InOrder n t
    → a.number ≡ suc n
    → suc n + 1 < 2 ^ 32
    → InOrder (suc n) (on_packet_received t a.number a.eliciting a.ecn a.at)
InOrder-step n t a o e h = record {
  blocks =
      received_intervals t a.number a.eliciting a.ecn a.at (suc n) next
      ∙ rw (e, o.blocks) (insert-one_block n h);
  largest = received_largest t a.number a.eliciting a.ecn a.at ∙ next;
}
  where
    next : next_largest t.largest_received a.number ≡ some (suc n)
    next = rw (o.largest, e) (next-up_to n)

InOrder-always :
    (n : ℕ) (arrivals : List Arrival)
    → numbers arrivals ≡ count_down n n
    → n + 1 < 2 ^ 32
    → InOrder n (receive_all new arrivals)
unfolding receive_all count_down
InOrder-always zero [] e h = record { blocks = unfold new in refl; largest = unfold new in refl }
InOrder-always zero (a ∷ earlier) e h = absurd (cc e)
InOrder-always (suc n) [] e h = absurd (cc e)
InOrder-always (suc n) (a ∷ earlier) e h =
    InOrder-step n (receive_all new earlier) a
      (InOrder-always n earlier (ground (arith, e)) (omega arith)) (ground (arith, e)) h

-- A defect: when a receiver was given the packets 1 to n in order, none lost, and
-- 16384 < n < 2^32 - 1, the sender takes nothing as acknowledged from any frame that the receiver builds.
pub in_order_stall :
    (n now : ℕ) (arrivals : List Arrival)
    → numbers arrivals ≡ count_down n n
    → 16384 < n
    → n + 1 < 2 ^ 32
    → acknowledged (receive_all new arrivals) now ≡ []
in_order_stall zero now arrivals e l h = absurd (omega arith)
in_order_stall (suc n) now arrivals e l h =
    let o = InOrder-always (suc n) arrivals e h in
    acknowledged_stall (receive_all new arrivals) now (suc n) (record { start = 1; end = suc n }) []
      (record {
        largest_is = o.largest;
        blocks_are = o.blocks;
        ordered = (omega arith, omega arith, tt);
        top = refl;
      })
      (omega arith)
