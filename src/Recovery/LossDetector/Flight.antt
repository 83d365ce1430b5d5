-- ===== src/Recovery/LossDetector/Flight.antt =====
-- Laws of the map of sent packets, and of the bytes in flight that a scan of it finds.
use gtp_rs.Base.{ℕ, suc, ◌+◌, ◌<◌, ◌≤◌, ◌≡◌, refl, arith, [], ◌∷◌, none, some}
use gtp_rs.Base.{◌==◌, if◌then◌else◌}
use gtp_rs.Recovery.LossDetector.Sent.{SentPacketRecord, SentPackets, lookup, insert, remove}

-- The bytes of a record that count, and their sum over the map (the scan of the `debug_assert`).
abbrev pub flight : SentPacketRecord → ℕ
flight r = if r.in_flight then r.bytes else 0

unfoldable pub scan : SentPackets → ℕ
scan [] = 0
scan ((k, r) ∷ m) = flight r + scan m

-- Keys rise, from `lo` on.
abbrev pub Ascending : ℕ → SentPackets → Type 0
Ascending lo [] = Unit {0}
Ascending lo ((k, r) ∷ m) = (lo ≤ k) × Ascending (suc k) m

abbrev pub KeysBelow : ℕ → SentPackets → Type 0
KeysBelow hi [] = Unit {0}
KeysBelow hi ((k, r) ∷ m) = (k < hi) × KeysBelow hi m

pub lookup-below : (m : SentPackets) (lo pn : ℕ) → Ascending lo m → pn < lo → lookup pn m ≡ none
unfolding lookup
lookup-below [] lo pn h l = refl
lookup-below ((k, r) ∷ m) lo pn h l = ground (arith, lookup-below m (suc k) pn h.1)

pub lookup-above : (m : SentPackets) (hi pn : ℕ) → KeysBelow hi m → hi ≤ pn → lookup pn m ≡ none
unfolding lookup
lookup-above [] hi pn h l = refl
lookup-above ((k, r) ∷ m) hi pn h l = ground (arith, lookup-above m hi pn h.1)

pub scan-insert :
    (m : SentPackets) (pn : ℕ) (r : SentPacketRecord)
    → lookup pn m ≡ none
    → scan (insert pn r m) ≡ flight r + scan m
unfolding scan insert lookup
scan-insert [] pn r h = refl
scan-insert ((k, s) ∷ m) pn r h = ground (arith, scan-insert m pn r)

pub scan-remove :
    (m : SentPackets) (pn : ℕ) (r : SentPacketRecord)
    → lookup pn m ≡ some r
    → scan (remove pn m) + flight r ≡ scan m
unfolding scan remove lookup
scan-remove [] pn r h = cc
scan-remove ((k, s) ∷ m) pn r h = ground (arith, scan-remove m pn r)

Ascending-mono : (m : SentPackets) (lo hi : ℕ) → lo ≤ hi → Ascending hi m → Ascending lo m
Ascending-mono [] lo hi l h = tt
Ascending-mono ((k, s) ∷ m) lo hi l h = (omega arith, h.1)

pub insert-Ascending :
    (m : SentPackets) (lo pn : ℕ) (r : SentPacketRecord)
    → Ascending lo m
    → lo ≤ pn
    → Ascending lo (insert pn r m)
unfolding insert
insert-Ascending [] lo pn r h l = (l, tt)
insert-Ascending ((k, s) ∷ m) lo pn r h l =
    ground (arith, insert-Ascending m (suc k) pn r h.1, Ascending-mono m (suc pn) (suc k))

pub remove-Ascending : (m : SentPackets) (lo pn : ℕ) → Ascending lo m → Ascending lo (remove pn m)
unfolding remove
remove-Ascending [] lo pn h = tt
remove-Ascending ((k, s) ∷ m) lo pn h =
    ground (arith, remove-Ascending m (suc k) pn h.1, Ascending-mono m lo (suc k))

pub insert-KeysBelow :
    (m : SentPackets) (hi pn : ℕ) (r : SentPacketRecord)
    → KeysBelow hi m
    → pn < hi
    → KeysBelow hi (insert pn r m)
unfolding insert
insert-KeysBelow [] hi pn r h l = (l, tt)
insert-KeysBelow ((k, s) ∷ m) hi pn r h l = ground (arith, insert-KeysBelow m hi pn r h.1)

pub KeysBelow-mono : (m : SentPackets) (lo hi : ℕ) → lo ≤ hi → KeysBelow lo m → KeysBelow hi m
KeysBelow-mono [] lo hi l h = tt
KeysBelow-mono ((k, s) ∷ m) lo hi l h = (omega arith, KeysBelow-mono m lo hi l h.1)

pub remove-KeysBelow : (m : SentPackets) (hi pn : ℕ) → KeysBelow hi m → KeysBelow hi (remove pn m)
unfolding remove
remove-KeysBelow [] hi pn h = tt
remove-KeysBelow ((k, s) ∷ m) hi pn h = ground (arith, remove-KeysBelow m hi pn h.1)

-- Removing a key hides it and no other.
pub lookup-remove :
    (m : SentPackets) (lo j pn : ℕ)
    → Ascending lo m
    → lookup j (remove pn m) ≡ (if j == pn then none else lookup j m)
unfolding lookup remove
lookup-remove [] lo j pn h = ground arith
lookup-remove ((k, s) ∷ m) lo j pn h =
    ground (arith, lookup-remove m (suc k) j pn h.1, lookup-below m (suc k) j h.1)
