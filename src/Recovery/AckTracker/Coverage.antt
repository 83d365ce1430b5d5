-- ===== src/Recovery/AckTracker/Coverage.antt =====
-- What inserting, merging and pruning do to the set of numbers that the intervals cover.
use gtp_rs.Base.{ℕ, ◌+◌, ◌^◌, ◌<◌, ◌≤◌, ◌≡◌, refl, arith, ◌∙◌, ap, inl, inr}
use gtp_rs.Base.{All, Bool, true, false, ◌&&◌, ◌||◌, leb, ◌==◌, List, [], ◌∷◌, Bool-cases}
use gtp_rs.Recovery.AckTracker.Intervals.{
  PacketInterval, next64, merge_from, merge_adjacent, insert_loop,
}
use gtp_rs.Recovery.AckTracker.Intervals.{insert_packet, retain_above}

abbrev pub inside : PacketInterval → ℕ → Bool
inside iv x = leb iv.start x && leb x iv.end

abbrev pub covers : List PacketInterval → ℕ → Bool
covers [] x = false
covers (iv ∷ ivs) x = inside iv x || covers ivs x

-- Blocks under the bound, newest first, each at least one number short of the one before.
abbrev pub Below : ℕ → List PacketInterval → Type 0
Below bound [] = Unit {0}
Below bound (iv ∷ ivs) = (iv.end + 1 < bound) × (iv.start ≤ iv.end) × Below iv.start ivs

-- The same, where blocks may touch.
abbrev pub Disjoint : ℕ → List PacketInterval → Type 0
Disjoint bound [] = Unit {0}
Disjoint bound (iv ∷ ivs) = (iv.end < bound) × (iv.start ≤ iv.end) × Disjoint iv.start ivs

abbrev pub Touching : ℕ → List PacketInterval → Type 0
Touching bound [] = Unit {0}
Touching bound (iv ∷ ivs) = (iv.end + 1 < bound) × (iv.start ≤ iv.end) × Disjoint iv.start ivs

Touching-Disjoint :
    (bound : ℕ) (ivs : List PacketInterval) → Touching bound ivs → Disjoint bound ivs
Touching-Disjoint bound [] h = tt
Touching-Disjoint bound (iv ∷ ivs) h = (omega arith, h.1, h.2)

pub Below-Disjoint :
    (bound c : ℕ) (ivs : List PacketInterval) → bound ≤ c + 1 → Below bound ivs → Disjoint c ivs
Below-Disjoint bound c [] l h = tt
Below-Disjoint bound c (iv ∷ ivs) l h =
    (omega arith, h.1, Below-Disjoint iv.start iv.start ivs (omega arith) h.2)

Below-mono : (b c : ℕ) (ivs : List PacketInterval) → b ≤ c → Below b ivs → Below c ivs
Below-mono b c [] l h = tt
Below-mono b c (iv ∷ ivs) l h = (omega arith, h.1, h.2)

pub covers-above :
    (ivs : List PacketInterval) (bound x : ℕ)
    → Disjoint bound ivs
    → bound ≤ x
    → covers ivs x ≡ false
covers-above [] bound x h l = refl
covers-above (iv ∷ ivs) bound x h l = ground (arith, covers-above ivs iv.start x h.2)

-- Merging from the block `a` on.
merge_from-Below :
    (rest : List PacketInterval) (a : PacketInterval) (bound : ℕ)
    → a.end + 1 < bound
    → bound ≤ 2 ^ 64
    → a.start ≤ a.end
    → Disjoint a.start rest
    → Below bound (merge_from a rest)
unfolding merge_from
merge_from-Below [] a bound h l o d = (h, o, tt)
merge_from-Below (b ∷ rest) a bound h l o d = elim (Bool-cases (leb a.start (next64 b.end))) [
  | inl touches ↦
      rw (touches, merge_from)
        (merge_from-Below rest (record a { start = b.start }) bound h l (omega arith) d.2)
  | inr apart ↦
      rw (apart, merge_from)
        (h, o, merge_from-Below rest b a.start (ground arith) (omega arith) d.1 d.2)
]

covers-merge_from :
    (rest : List PacketInterval) (a : PacketInterval) (x : ℕ)
    → a.end < 2 ^ 64
    → a.start ≤ a.end
    → Disjoint a.start rest
    → covers (merge_from a rest) x ≡ (inside a x || covers rest x)
unfolding merge_from
covers-merge_from [] a x h o d = refl
covers-merge_from (b ∷ rest) a x h o d = elim (Bool-cases (leb a.start (next64 b.end))) [
  | inl touches ↦
      rw (touches, merge_from)
        (covers-merge_from rest (record a { start = b.start }) x h (omega arith) d.2
          ∙ joined touches)
  | inr apart ↦
      rw (apart, merge_from)
        (ap (λ (c : Bool). inside a x || c) (covers-merge_from rest b x (omega arith) d.1 d.2))
]
  where
    joined :
        leb a.start (next64 b.end) ≡ true
        → (inside (record a { start = b.start }) x || covers rest x)
          ≡ (inside a x || (inside b x || covers rest x))
    joined t = ground arith

-- The search for the place of a new number.
insert_loop-Touching :
    (ivs : List PacketInterval) (pn bound : ℕ)
    → Below bound ivs
    → pn + 1 < bound
    → bound ≤ 2 ^ 64
    → Touching bound (insert_loop pn ivs).0
unfolding insert_loop
insert_loop-Touching [] pn bound h p l = (p, omega arith, tt)
insert_loop-Touching (iv ∷ ivs) pn bound h p l = ground (
  arith,
  Below-Disjoint iv.start iv.start ivs (omega arith) h.2,
  Below-Disjoint iv.start pn ivs,
  Touching-Disjoint iv.start (insert_loop pn ivs).0,
  insert_loop-Touching ivs pn iv.start h.2,
)

insert_loop-Below :
    (ivs : List PacketInterval) (pn bound : ℕ)
    → Below bound ivs
    → pn + 1 < bound
    → bound ≤ 2 ^ 64
    → (insert_loop pn ivs).1 ≡ false
    → Below bound (insert_loop pn ivs).0
unfolding insert_loop
insert_loop-Below [] pn bound h p l e = (p, omega arith, tt)
insert_loop-Below (iv ∷ ivs) pn bound h p l e =
    ground (arith, insert_loop-Below ivs pn iv.start h.2)

covers-insert_loop :
    (ivs : List PacketInterval) (pn bound x : ℕ)
    → Below bound ivs
    → pn + 1 < bound
    → bound ≤ 2 ^ 64
    → covers (insert_loop pn ivs).0 x ≡ (x == pn || covers ivs x)
unfolding insert_loop
covers-insert_loop [] pn bound x h p l = ground arith
covers-insert_loop (iv ∷ ivs) pn bound x h p l =
    ground (arith, covers-insert_loop ivs pn iv.start x h.2)

merge_adjacent-Below :
    (ivs : List PacketInterval) (bound : ℕ)
    → bound ≤ 2 ^ 64
    → Touching bound ivs
    → Below bound (merge_adjacent ivs)
unfolding merge_adjacent
merge_adjacent-Below [] bound l h = tt
merge_adjacent-Below (a ∷ rest) bound l h = merge_from-Below rest a bound h.0 l h.1 h.2

covers-merge_adjacent :
    (ivs : List PacketInterval) (bound x : ℕ)
    → bound ≤ 2 ^ 64
    → Touching bound ivs
    → covers (merge_adjacent ivs) x ≡ covers ivs x
unfolding merge_adjacent
covers-merge_adjacent [] bound x l h = refl
covers-merge_adjacent (a ∷ rest) bound x l h = covers-merge_from rest a x (omega arith) h.1 h.2

-- Inserting keeps the blocks apart and in order.
pub insert_packet-Below :
    (ivs : List PacketInterval) (pn bound : ℕ)
    → Below bound ivs
    → pn + 1 < bound
    → bound ≤ 2 ^ 64
    → Below bound (insert_packet pn ivs)
unfolding insert_packet
insert_packet-Below ivs pn bound h p l = ground (
  arith,
  insert_loop-Below ivs pn bound h p l,
  merge_adjacent-Below (insert_loop pn ivs).0 bound l (insert_loop-Touching ivs pn bound h p l),
)

-- Inserting adds that number to those covered, and no other.
pub covers-insert_packet :
    (ivs : List PacketInterval) (pn bound x : ℕ)
    → Below bound ivs
    → pn + 1 < bound
    → bound ≤ 2 ^ 64
    → covers (insert_packet pn ivs) x ≡ (x == pn || covers ivs x)
unfolding insert_packet
covers-insert_packet ivs pn bound x h p l = ground (
  arith,
  covers-insert_loop ivs pn bound x h p l,
  covers-merge_adjacent (insert_loop pn ivs).0 bound x l (insert_loop-Touching ivs pn bound h p l),
)

-- Pruning keeps the order, keeps what lies above the floor, and adds nothing.
pub retain_above-Below :
    (ivs : List PacketInterval) (floor bound : ℕ)
    → Below bound ivs
    → Below bound (retain_above floor ivs)
unfolding retain_above
retain_above-Below [] floor bound h = tt
retain_above-Below (iv ∷ ivs) floor bound h = ground (
  arith,
  retain_above-Below ivs floor iv.start h.2,
  Below-mono iv.start bound (retain_above floor ivs),
)

pub covers-retain_above :
    (ivs : List PacketInterval) (floor x : ℕ)
    → floor < x
    → covers (retain_above floor ivs) x ≡ covers ivs x
unfolding retain_above
covers-retain_above [] floor x h = refl
covers-retain_above (iv ∷ ivs) floor x h = ground (arith, covers-retain_above ivs floor x h)

pub covers-of-retain_above :
    (ivs : List PacketInterval) (floor x : ℕ)
    → covers (retain_above floor ivs) x ≡ true
    → covers ivs x ≡ true
unfolding retain_above
covers-of-retain_above [] floor x h = h
covers-of-retain_above (iv ∷ ivs) floor x h = ground (arith, covers-of-retain_above ivs floor x)

pub retain_above-recent :
    (ivs : List PacketInterval) (floor : ℕ) → All (λ iv. floor < iv.end) (retain_above floor ivs)
unfolding retain_above
retain_above-recent [] floor = tt
retain_above-recent (iv ∷ ivs) floor = ground (arith, retain_above-recent ivs floor)
