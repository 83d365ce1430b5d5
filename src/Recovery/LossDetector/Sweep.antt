-- ===== src/Recovery/LossDetector/Sweep.antt =====
-- The loss sweep: what it picks is in flight, and what it takes off the counter it reports.
use gtp_rs.Base.{ℕ, suc, ◌+◌, ◌^◌, ◌<◌, ◌≤◌, ◌≡◌, refl, arith, List, [], ◌∷◌, some}
use gtp_rs.Base.{All, true, ◌∙◌, inl, inr, Option-cases, Bool-cases, subst}
use gtp_rs.Recovery.LossDetector.Sent.{SentPacketRecord, SentPackets, lookup, remove}
use gtp_rs.Recovery.LossDetector.Flight.{Ascending, scan-remove}
use gtp_rs.Recovery.LossDetector.Flight.{remove-Ascending, remove-KeysBelow}
use gtp_rs.Recovery.LossDetector.Flight.{lookup-remove}
use gtp_rs.Recovery.LossDetector.{LossPass, lose_record, loss_loop, is_lost, lost_pns}
use gtp_rs.Base.{All-map}
use gtp_rs.Recovery.LossDetector.Accounting.{Consistent}

-- The numbers whose record, if there is one, is in flight.
abbrev pub FlightKeys : SentPackets → List ℕ → Type 0
FlightKeys m = All (λ pn. (r : SentPacketRecord) → lookup pn m ≡ some r → r.in_flight ≡ true)

FlightKeys-remove :
    (m : SentPackets) (k : ℕ) (pns : List ℕ)
    → Ascending 0 m
    → FlightKeys m pns
    → FlightKeys (remove k m) pns
FlightKeys-remove m k [] a h = tt
FlightKeys-remove m k (pn ∷ pns) a h =
    (λ r e. h.0 r (ground (arith, lookup-remove m 0 pn k a)), FlightKeys-remove m k pns a h.1)

-- The counter and the lost bytes before and after the loop over the lost numbers.
pub record Lost (largest : ℕ) (p q : LossPass) : Type 0 where
  pub settled : q.inflight + q.lost_bytes ≡ p.inflight + p.lost_bytes
  pub still : Consistent q.packets largest q.inflight

lose_record-Lost :
    (largest pn : ℕ) (p : LossPass) (r : SentPacketRecord)
    → Consistent p.packets largest p.inflight
    → p.inflight + p.lost_bytes < 2 ^ 64
    → lookup pn p.packets ≡ some r
    → r.in_flight ≡ true
    → Lost largest p (lose_record pn p r)
unfolding lose_record
lose_record-Lost largest pn p r c room found flying =
    let less = scan-remove p.packets pn r found in
    record {
      settled = ground (arith, less, c.counted, flying);
      still = record {
        ascending = remove-Ascending p.packets 0 pn c.ascending;
        bounded = remove-KeysBelow p.packets (suc largest) pn c.bounded;
        counted = ground (arith, less, c.counted, flying);
      };
    }

lose_record_packets :
    (pn : ℕ) (p : LossPass) (r : SentPacketRecord)
    → (lose_record pn p r).packets ≡ remove pn p.packets
unfolding lose_record
lose_record_packets pn p r = refl

pub loss_loop-Lost :
    (largest : ℕ) (pns : List ℕ) (p : LossPass)
    → Consistent p.packets largest p.inflight
    → p.inflight + p.lost_bytes < 2 ^ 64
    → FlightKeys p.packets pns
    → Lost largest p (loss_loop pns p)
unfolding loss_loop
loss_loop-Lost largest [] p c room f = record { settled = refl; still = c }
loss_loop-Lost largest (pn ∷ pns) p c room f = elim (Option-cases (lookup pn p.packets)) [
  | inl missing ↦ rw missing (loss_loop-Lost largest pns p c room f.1)
  | inr (r, found) ↦
      let first = lose_record-Lost largest pn p r c room found (f.0 r found) in
      let f' =
        rw (← lose_record_packets pn p r) at (FlightKeys-remove p.packets pn pns c.ascending f.1) in
      let later =
        loss_loop-Lost largest pns (lose_record pn p r) first.still (omega (arith, first.settled))
          f' in
      rw found (record { settled = later.settled ∙ first.settled; still = later.still })
]

-- What the loss sweep picks is in flight.
lost_pns-above :
    (largest_pn now threshold lo : ℕ) (m : SentPackets)
    → Ascending lo m
    → All (λ pn. lo ≤ pn) (lost_pns largest_pn now threshold m)
unfolding lost_pns
lost_pns-above largest_pn now threshold lo [] a = tt
lost_pns-above largest_pn now threshold lo ((k, r) ∷ m) a = ground (
  arith,
  All-map (λ pn. suc k ≤ pn) (λ pn. lo ≤ pn) (lost_pns largest_pn now threshold m)
      (λ x h. omega arith) (lost_pns-above largest_pn now threshold (suc k) m a.1),
)

FlightKeys-cons :
    (k : ℕ) (s : SentPacketRecord) (m : SentPackets) (pns : List ℕ)
    → All (λ pn. suc k ≤ pn) pns
    → FlightKeys m pns
    → FlightKeys ((k, s) ∷ m) pns
unfolding lookup
FlightKeys-cons k s m [] l f = tt
FlightKeys-cons k s m (pn ∷ pns) l f =
    (λ r e. f.0 r (ground arith), FlightKeys-cons k s m pns l.1 f.1)

is_lost-flight :
    (largest_pn now threshold pn : ℕ) (r : SentPacketRecord)
    → is_lost largest_pn now threshold pn r ≡ true
    → r.in_flight ≡ true
unfolding is_lost
is_lost-flight largest_pn now threshold pn r e = ground arith

lookup-head :
    (k : ℕ) (s r : SentPacketRecord) (m : SentPackets) → lookup k ((k, s) ∷ m) ≡ some r → s ≡ r
unfolding lookup
lookup-head k s r m e = ground arith

pub lost_pns-FlightKeys :
    (largest_pn now threshold lo : ℕ) (m : SentPackets)
    → Ascending lo m
    → FlightKeys m (lost_pns largest_pn now threshold m)
unfolding lost_pns
lost_pns-FlightKeys largest_pn now threshold lo [] a = tt
lost_pns-FlightKeys largest_pn now threshold lo ((k, s) ∷ m) a =
    let rest =
      FlightKeys-cons k s m (lost_pns largest_pn now threshold m)
        (lost_pns-above largest_pn now threshold (suc k) m a.1)
        (lost_pns-FlightKeys largest_pn now threshold (suc k) m a.1) in
    elim (Bool-cases (is_lost largest_pn now threshold k s)) [
      | inl lost ↦ rw lost (
        λ r e.
            subst (λ x. x.in_flight ≡ true) (lookup-head k s r m e)
              (is_lost-flight largest_pn now threshold k s lost),
        rest,
      )
      | inr kept ↦ rw kept rest
    ]
