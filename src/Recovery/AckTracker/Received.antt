-- ===== src/Recovery/AckTracker/Received.antt =====
-- The tracker against the packet numbers that it was given.
use gtp_rs.Base.{
  ℕ, ◌+◌, ◌-◌, ◌^◌, ◌<◌, ◌≡◌, refl, arith, List, [], ◌∷◌, Option, none, some, max, ap, ◌∙◌,
}
use gtp_rs.Base.{Bool, true, contains, maximum, All}
use gtp_rs.Recovery.AckTracker.Intervals.{PacketInterval, insert_packet, retain_above}
use gtp_rs.Recovery.AckTracker.Coverage.{covers, Below, insert_packet-Below, covers-insert_packet}
use gtp_rs.Recovery.AckTracker.Coverage.{
  retain_above-Below, covers-retain_above, covers-of-retain_above, retain_above-recent,
}
use gtp_rs.Recovery.AckTracker.{
  AckTracker, count_ecn, update_largest, prune_old_intervals, on_packet_received,
}

pub record Arrival : Type 0 where
  pub number : ℕ
  pub eliciting : Bool
  pub ecn : ℕ
  pub at : ℕ

abbrev pub numbers : List Arrival → List ℕ
numbers [] = []
numbers (a ∷ as') = a.number ∷ numbers as'

-- The tracker after some arrivals, newest first.
unfoldable pub receive_all : AckTracker → List Arrival → AckTracker
receive_all t [] = t
receive_all t (a ∷ earlier) =
    on_packet_received (receive_all t earlier) a.number a.eliciting a.ecn a.at

abbrev pub newest : List ℕ → Option ℕ
newest [] = none
newest (x ∷ xs) = some (maximum (x ∷ xs))

abbrev pub floor_of : List ℕ → ℕ
floor_of hist = maximum hist - 1024

-- The intervals cover received numbers only, and every received one above the retention floor.
pub record Records (ivs : List PacketInterval) (largest : Option ℕ) (hist : List ℕ) : Type 0 where
  pub largest_is : largest ≡ newest hist
  pub ordered : Below (2 ^ 64) ivs
  pub recent : All (λ iv. floor_of hist < iv.end) ivs
  pub sound : (x : ℕ) → covers ivs x ≡ true → contains hist x ≡ true
  pub complete : (x : ℕ) → floor_of hist < x → contains hist x ≡ true → covers ivs x ≡ true

-- What `on_packet_received` does to the two fields that matter here.
unfoldable pub next_largest : Option ℕ → ℕ → Option ℕ
next_largest none pn = some pn
next_largest (some l) pn = some (max l pn)

pub received_largest :
    (t : AckTracker) (pn : ℕ) (e : Bool) (ecn now : ℕ)
    → (on_packet_received t pn e ecn now).largest_received ≡ next_largest t.largest_received pn
unfolding on_packet_received count_ecn update_largest prune_old_intervals next_largest
received_largest t pn e ecn now = ground arith

pub received_intervals :
    (t : AckTracker) (pn : ℕ) (e : Bool) (ecn now l : ℕ)
    → next_largest t.largest_received pn ≡ some l
    → (on_packet_received t pn e ecn now).intervals
      ≡ retain_above (l - 1024) (insert_packet pn t.intervals)
unfolding on_packet_received count_ecn update_largest prune_old_intervals next_largest
received_intervals t pn e ecn now l h = ground arith

next_largest-newest : (hist : List ℕ) (pn : ℕ) → next_largest (newest hist) pn ≡ newest (pn ∷ hist)
unfolding next_largest
next_largest-newest [] pn = ground arith
next_largest-newest (x ∷ hist) pn = ground arith

module _ (ivs : List PacketInterval) (largest : Option ℕ) (hist : List ℕ) (pn : ℕ) where
  insert-Records :
      Records ivs largest hist
      → pn + 1 < 2 ^ 64
      → Records
          (retain_above (floor_of (pn ∷ hist)) (insert_packet pn ivs))
          (newest (pn ∷ hist))
          (pn ∷ hist)
  insert-Records r small = record {
    largest_is = refl;
    ordered = retain_above-Below (insert_packet pn ivs) floor (2 ^ 64) inserted;
    recent = retain_above-recent (insert_packet pn ivs) floor;
    sound = λ x h. ground (
      arith,
      covers-of-retain_above (insert_packet pn ivs) floor x h,
      covers-insert_packet ivs pn (2 ^ 64) x r.ordered small (omega arith),
      r.sound x,
    );
    complete = λ x above h. ground (
      arith,
      covers-retain_above (insert_packet pn ivs) floor x above,
      covers-insert_packet ivs pn (2 ^ 64) x r.ordered small (omega arith),
      r.complete x,
    );
  }
    where
      floor : ℕ
      floor = floor_of (pn ∷ hist)

      inserted : Below (2 ^ 64) (insert_packet pn ivs)
      inserted = insert_packet-Below ivs pn (2 ^ 64) r.ordered small (omega arith)

on_packet_received-Records :
    (t : AckTracker) (hist : List ℕ) (a : Arrival)
    → Records t.intervals t.largest_received hist
    → a.number + 1 < 2 ^ 64
    → let t' = on_packet_received t a.number a.eliciting a.ecn a.at in
      Records t'.intervals t'.largest_received (a.number ∷ hist)
on_packet_received-Records t hist a r small =
    rw
      (
        received_intervals t a.number a.eliciting a.ecn a.at _ largest,
        received_largest t a.number a.eliciting a.ecn a.at,
        largest,
      )
      (insert-Records t.intervals t.largest_received hist a.number r small)
  where
    largest : next_largest t.largest_received a.number ≡ some (maximum (a.number ∷ hist))
    largest = ap (λ o. next_largest o a.number) r.largest_is ∙ next_largest-newest hist a.number

abbrev pub AllSmall : List Arrival → Type 0
AllSmall [] = Unit {0}
AllSmall (a ∷ as') = (a.number + 1 < 2 ^ 64) × AllSmall as'

-- After any arrivals with numbers below 2^64 - 1, in any order and with repetitions, the blocks are
-- ordered and apart, cover received numbers only, and cover every received number above 0 that is
-- less than 1024 below the newest one.
pub receive_all-Records :
    (t : AckTracker) (arrivals : List Arrival)
    → t.intervals ≡ []
    → t.largest_received ≡ none
    → AllSmall arrivals
    → Records
        (receive_all t arrivals).intervals
        (receive_all t arrivals).largest_received
        (numbers arrivals)
unfolding receive_all
receive_all-Records t [] e f h =
    rw (e, f)
      (record {
        largest_is = refl;
        ordered = tt;
        recent = tt;
        sound = λ x c. c;
        complete = λ x l c. c;
      })
receive_all-Records t (a ∷ earlier) e f h =
    on_packet_received-Records (receive_all t earlier) (numbers earlier) a
      (receive_all-Records t earlier e f h.1) h.0
