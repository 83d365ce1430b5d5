-- ===== src/Recovery/Owd/Variance.antt =====
-- The estimate follows the delay, whatever the offset of the two clocks.
use gtp_rs.Base.{
  ℕ, ◌+◌, ◌-◌, ◌%◌, ◌^◌, ◌≤◌, ◌<◌, ◌≡◌, refl, sym, ap, ◌∙◌, subst, arith, min, ltb, leb, Bool-cases,
  true, false, inl, inr, List, [], ◌∷◌, some,
}
use gtp_rs.Types.Time.{duration_since}
use gtp_rs.Recovery.Owd.{
  OwdEstimator, new, wrapping_sub, refresh, observe, on_packet, owd_var, floor_reanchor_window,
}

-- The difference of two delays that lie on one clock offset.
wrap_above :
    (c x f : ℕ)
    → c < 2 ^ 32
    → x < 2 ^ 31
    → f ≤ x
    → wrapping_sub ((c + x) % 2 ^ 32) ((c + f) % 2 ^ 32) ≡ x - f
wrap_above c x f hc hx h = omega arith

wrap_below :
    (c x f : ℕ)
    → c < 2 ^ 32
    → f < 2 ^ 31
    → x < f
    → 2 ^ 31 < wrapping_sub ((c + x) % 2 ^ 32) ((c + f) % 2 ^ 32)
wrap_below c x f hc hf h = omega arith

-- Local time minus the peer's, when the peer's clock shows `o` less than ours.
sent_at :
    (sent x o : ℕ)
    → o < 2 ^ 32
    → wrapping_sub ((sent + x) % 2 ^ 32) ((sent + (2 ^ 32 - o)) % 2 ^ 32) ≡ (o + x) % 2 ^ 32
sent_at sent x o h = omega arith

-- One packet: when it was sent, by our clock, and how long it took.
pub record Arrival : Type 0 where
  pub sent : ℕ
  pub delay : ℕ

-- The timestamp that a peer writes whose clock is `o` microseconds behind ours.
abbrev pub stamp : ℕ → Arrival → ℕ
stamp o a = (a.sent + (2 ^ 32 - o)) % 2 ^ 32

abbrev pub receive : ℕ → OwdEstimator → List Arrival → OwdEstimator
receive o e [] = e
receive o e (a ∷ more) = receive o (on_packet e (stamp o a) (a.sent + a.delay)).0 more

abbrev pub lowest : ℕ → List Arrival → ℕ
lowest f [] = f
lowest f (a ∷ more) = lowest (min f a.delay) more

abbrev pub latest : ℕ → List Arrival → ℕ
latest x [] = x
latest x (a ∷ more) = latest a.delay more

-- Delays below 2 ^ 31 that end within the window that starts at `start`.
abbrev pub InWindow : ℕ → List Arrival → Type 0
InWindow start [] = Unit {0}
InWindow start (a ∷ more) =
    (a.delay < 2 ^ 31)
    × (start ≤ a.sent + a.delay)
    × (a.sent + a.delay ≤ start + floor_reanchor_window)
    × InWindow start more

-- The estimator has the floor `f` and last saw the delay `x`.
record Tracks (start o f x : ℕ) (e : OwdEstimator) : Type 0 where
  sampled : e.has_sample ≡ true
  floor : e.base_d ≡ (o + f) % 2 ^ 32
  low : f < 2 ^ 31
  variance : e.prev_owd_var ≡ x - f
  since : start ≤ e.floor_time

observe-Tracks :
    (start o f x y now : ℕ) (e : OwdEstimator)
    → o < 2 ^ 32
    → y < 2 ^ 31
    → start ≤ now
    → Tracks start o f x e
    → Tracks start o (min f y) y (observe e ((o + y) % 2 ^ 32) now)
unfolding observe
observe-Tracks start o f x y now e ho hy later t = elim (Bool-cases (leb f y)) [
  | inl above ↦
      let same : wrapping_sub ((o + y) % 2 ^ 32) e.base_d ≡ y - f =
        ap (wrapping_sub ((o + y) % 2 ^ 32)) t.floor ∙ wrap_above o y f ho hy (ground arith) in
      let positive : leb (2 ^ 31) (wrapping_sub ((o + y) % 2 ^ 32) e.base_d) ≡ false =
        ground (arith, same, hy) in
      let kept : min f y ≡ f = ground arith in
      rw (positive, kept)
        (record {
          sampled = t.sampled;
          floor = t.floor;
          low = t.low;
          variance = same;
          since = t.since;
        })
  | inr below ↦
      let far : 2 ^ 31 < wrapping_sub ((o + y) % 2 ^ 32) e.base_d =
        subst (λ b. 2 ^ 31 < wrapping_sub ((o + y) % 2 ^ 32) b) (sym t.floor)
          (wrap_below o y f ho t.low (ground arith)) in
      let negative : leb (2 ^ 31) (wrapping_sub ((o + y) % 2 ^ 32) e.base_d) ≡ true =
        ground (arith, far) in
      let replaced : min f y ≡ y = ground arith in
      rw (negative, replaced)
        (record {
          sampled = t.sampled;
          floor = refl;
          low = hy;
          variance = omega arith;
          since = later;
        })
]

on_packet-Tracks :
    (start o f x : ℕ) (a : Arrival) (e : OwdEstimator)
    → o < 2 ^ 32
    → a.delay < 2 ^ 31
    → start ≤ a.sent + a.delay
    → a.sent + a.delay ≤ start + floor_reanchor_window
    → Tracks start o f x e
    → Tracks start o (min f a.delay) a.delay (on_packet e (stamp o a) (a.sent + a.delay)).0
unfolding on_packet refresh
on_packet-Tracks start o f x a e ho hy later soon t =
    let fresh : ltb floor_reanchor_window (duration_since (a.sent + a.delay) e.floor_time) ≡ false =
      ground (arith, soon, t.since) in
    rw (t.sampled, fresh, sent_at a.sent a.delay o ho)
      (observe-Tracks start o f x a.delay (a.sent + a.delay) (record e { has_sample = true }) ho hy
        later
        (record {
          sampled = refl;
          floor = t.floor;
          low = t.low;
          variance = t.variance;
          since = t.since;
        }))

receive-Tracks :
    (start o f x : ℕ) (e : OwdEstimator) (more : List Arrival)
    → o < 2 ^ 32
    → InWindow start more
    → Tracks start o f x e
    → Tracks start o (lowest f more) (latest x more) (receive o e more)
receive-Tracks start o f x e [] ho i t = t
receive-Tracks start o f x e (a ∷ more) ho (hy, later, soon, i) t =
    receive-Tracks start o (min f a.delay) a.delay _ more ho i
      (on_packet-Tracks start o f x a e ho hy later soon t)

on_packet-first :
    (o : ℕ) (a : Arrival)
    → o < 2 ^ 32
    → a.delay < 2 ^ 31
    → Tracks (a.sent + a.delay) o a.delay a.delay (on_packet new (stamp o a) (a.sent + a.delay)).0
unfolding on_packet
on_packet-first o a ho hy = record {
  sampled = refl;
  floor = sent_at a.sent a.delay o ho;
  low = hy;
  variance = omega arith;
  since = omega arith;
}

-- Packets of a peer whose clock is behind ours by any number below 2^32 (so that timestamps and clock
-- wrap), each with a delay below 2^31 microseconds, that arrive within 30 seconds from the first one
-- on: the variance is then the delay of the last one less the lowest delay of all.
pub receive-variance :
    (o : ℕ) (a : Arrival) (more : List Arrival)
    → o < 2 ^ 32
    → a.delay < 2 ^ 31
    → InWindow (a.sent + a.delay) more
    → owd_var (receive o new (a ∷ more)) ≡ some (latest a.delay more - lowest a.delay more)
receive-variance o a more ho hy i =
    let t =
      receive-Tracks (a.sent + a.delay) o a.delay a.delay
        (on_packet new (stamp o a) (a.sent + a.delay)).0 more ho i (on_packet-first o a ho hy) in
    rw (t.sampled, t.variance) refl
