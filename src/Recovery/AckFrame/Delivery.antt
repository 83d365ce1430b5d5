-- ===== src/Recovery/AckFrame/Delivery.antt =====
-- The sender's reading of the frame against what the receiver was given.
use gtp_rs.Base.{ℕ, zero, suc, ◌+◌, ◌^◌, ◌<◌, ◌≤◌, ◌≡◌, refl, arith, ◌∙◌, ap, sym, true, false}
use gtp_rs.Base.{
  List, [], ◌∷◌, take, length, contains, maximum, le-maximum, contains-maximum, contains-append,
}
use gtp_rs.Recovery.AckTracker.Intervals.{PacketInterval}
use gtp_rs.Recovery.AckTracker.Coverage.{covers, Below, covers-above, Below-Disjoint}
use gtp_rs.Recovery.AckTracker.{AckTracker, new}
use gtp_rs.Recovery.AckTracker.Received.{
  Arrival, Records, numbers, receive_all, receive_all-Records, AllSmall,
}
use gtp_rs.Recovery.LossDetector.Ranges.{count_down}
use gtp_rs.Recovery.AckFrame.{size, numbers_of, fitting, acknowledged}
use gtp_rs.Recovery.AckFrame.Meaning.{IsTopped, contains-numbers_of, acknowledged-fitting}

covers-le-top :
    (iv : PacketInterval) (ivs : List PacketInterval) (bound x : ℕ)
    → Below bound (iv ∷ ivs)
    → covers (iv ∷ ivs) x ≡ true
    → x ≤ iv.end
covers-le-top iv ivs bound x h c =
    ground
      (arith, covers-above ivs iv.start x (Below-Disjoint iv.start iv.start ivs (omega arith) h.2))

-- The first block of a tracker that has seen a packet ends at the largest number.
module _ (t : AckTracker) (hist : List ℕ) (x : ℕ) where
  Topped : Type 0
  Topped =
      (iv : PacketInterval) × (ivs : List PacketInterval) × IsTopped t (maximum (x ∷ hist)) iv ivs

  Records-IsTopped :
      (blocks : List PacketInterval)
      → t.intervals ≡ blocks
      → Records blocks t.largest_received (x ∷ hist)
      → 0 < maximum (x ∷ hist)
      → maximum (x ∷ hist) + 1 < 2 ^ 32
      → Topped
  unfolding Topped
  Records-IsTopped [] e r pos small =
      let none_covered : false ≡ true =
        r.complete (maximum (x ∷ hist)) (omega arith) (contains-maximum x hist) in
      absurd (cc none_covered)
  Records-IsTopped (iv ∷ ivs) e r pos small =
      let reached =
        covers-le-top iv ivs (2 ^ 64) (maximum (x ∷ hist)) r.ordered
          (r.complete (maximum (x ∷ hist)) (omega arith) (contains-maximum x hist)) in
      let received : iv.end ≤ maximum (x ∷ hist) =
        le-maximum (x ∷ hist) iv.end (r.sound iv.end (ground (arith, r.ordered.1))) in
      (
        iv,
        ivs,
        record {
          largest_is = r.largest_is;
          blocks_are = e;
          ordered = (omega arith, r.ordered.1, r.ordered.2);
          top = omega arith;
        },
      )

fitting-sub :
    (ivs : List PacketInterval) (total x : ℕ)
    → contains (numbers_of (fitting total ivs)) x ≡ true
    → contains (numbers_of ivs) x ≡ true
fitting-sub [] total x h = h
fitting-sub (iv ∷ ivs) total x h = ground (
  arith,
  contains-append (count_down (size iv) iv.end) (numbers_of ivs) x,
  contains-append (count_down (size iv) iv.end) (numbers_of (fitting (total + size iv) ivs)) x,
  fitting-sub ivs (total + size iv) x,
)

take-sub :
    (n : ℕ) (ivs : List PacketInterval) (x : ℕ)
    → contains (numbers_of (take n ivs)) x ≡ true
    → contains (numbers_of ivs) x ≡ true
take-sub zero ivs x h = cc
take-sub (suc n) [] x h = h
take-sub (suc n) (iv ∷ ivs) x h = ground (
  arith,
  contains-append (count_down (size iv) iv.end) (numbers_of ivs) x,
  contains-append (count_down (size iv) iv.end) (numbers_of (take n ivs)) x,
  take-sub n ivs x,
)

abbrev pub total_size : List PacketInterval → ℕ
total_size [] = 0
total_size (iv ∷ ivs) = size iv + total_size ivs

fitting_all :
    (ivs : List PacketInterval) (total : ℕ)
    → total + total_size ivs ≤ 16384
    → fitting total ivs ≡ ivs
fitting_all [] total h = refl
fitting_all (iv ∷ ivs) total h = ground (arith, fitting_all ivs (total + size iv) (omega arith))

take_all {ℓ} : {A : Type ℓ} (n : ℕ) (xs : List A) → length xs ≤ n → take n xs ≡ xs
take_all zero [] h = refl
take_all zero (x ∷ xs) h = absurd (omega arith)
take_all (suc n) [] h = refl
take_all (suc n) (x ∷ xs) h = ap (◌∷◌ x) (take_all n xs (omega arith))

-- Numbers from 1 up, below 2^32 - 1.
abbrev pub AllModest : List Arrival → Type 0
AllModest [] = Unit {0}
AllModest (a ∷ as') = (0 < a.number) × (a.number + 1 < 2 ^ 32) × AllModest as'

AllModest-AllSmall : (as' : List Arrival) → AllModest as' → AllSmall as'
AllModest-AllSmall [] h = tt
AllModest-AllSmall (a ∷ as') h = (omega arith, AllModest-AllSmall as' h.2)

AllModest-maximum : (as' : List Arrival) → AllModest as' → maximum (numbers as') + 1 < 2 ^ 32
AllModest-maximum [] h = omega arith
AllModest-maximum (a ∷ as') h = omega (arith, AllModest-maximum as' h.2)

AllModest-positive :
    (as' : List Arrival) (x : ℕ) → AllModest as' → contains (numbers as') x ≡ true → 0 < x
AllModest-positive [] x h c = cc
AllModest-positive (a ∷ as') x h c = ground (arith, AllModest-positive as' x h.2)

module _ (a : Arrival) (earlier : List Arrival) (h : AllModest (a ∷ earlier)) where
  tracker : AckTracker
  tracker = receive_all new (a ∷ earlier)

  tracker-Records : Records tracker.intervals tracker.largest_received (numbers (a ∷ earlier))
  unfolding tracker
  tracker-Records =
      receive_all-Records new (a ∷ earlier) (unfold new in refl) (unfold new in refl)
        (AllModest-AllSmall (a ∷ earlier) h)

  tracker-Topped : Topped tracker (numbers earlier) a.number
  tracker-Topped =
      Records-IsTopped tracker (numbers earlier) a.number tracker.intervals refl tracker-Records
        (omega arith) (AllModest-maximum (a ∷ earlier) h)

  -- With numbers from 1 to 2^32 - 2, whatever the order and the losses: each number that the
  -- sender takes as acknowledged was received.
  pub acknowledged_sound :
      (now x : ℕ)
      → contains (acknowledged (receive_all new (a ∷ earlier)) now) x ≡ true
      → contains (numbers (a ∷ earlier)) x ≡ true
  unfolding tracker Topped
  acknowledged_sound now x c =
      let (iv, ivs, top) = tracker-Topped in
      let r = tracker-Records in
      let read = acknowledged-fitting tracker now _ iv ivs top in
      let in_blocks =
        take-sub 32 tracker.intervals x
          (fitting-sub (take 32 tracker.intervals) 0 x (ap (λ l. contains l x) (sym read) ∙ c)) in
      r.sound x (sym (contains-numbers_of tracker.intervals (2 ^ 64) x r.ordered) ∙ in_blocks)

  -- With numbers from 1 to 2^32 - 2, whatever the order and the losses: if the tracker then holds at
  -- most 32 blocks with at most 16384 numbers in all, every received number that is less than 1024
  -- below the newest is acknowledged.
  pub acknowledged_complete :
      (now x : ℕ)
      → length (receive_all new (a ∷ earlier)).intervals ≤ 32
      → total_size (receive_all new (a ∷ earlier)).intervals ≤ 16384
      → maximum (numbers (a ∷ earlier)) < x + 1024
      → contains (numbers (a ∷ earlier)) x ≡ true
      → contains (acknowledged (receive_all new (a ∷ earlier)) now) x ≡ true
  unfolding tracker Topped
  acknowledged_complete now x few modest near c =
      let (iv, ivs, top) = tracker-Topped in
      let r = tracker-Records in
      let read = acknowledged-fitting tracker now _ iv ivs top in
      let whole = fitting_all tracker.intervals 0 (omega arith) in
      let covered = r.complete x (omega (arith, AllModest-positive (a ∷ earlier) x h c)) c in
      ap (λ l. contains l x) read
      ∙ rw (take_all 32 tracker.intervals few, whole)
          (contains-numbers_of tracker.intervals (2 ^ 64) x r.ordered ∙ covered)
