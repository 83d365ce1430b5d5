-- ===== src/Crypto/Replay/Refine.antt =====
-- The window against the history of the packet numbers committed to it.
use gtp_rs.Base.{ℕ, ◌+◌, ◌-◌, ◌<◌, ◌≤◌, ◌≡◌, arith, refl, ap, ◌∙◌, List, [], ◌∷◌}
use gtp_rs.Base.{
  Bool, true, false, not, ltb, leb, ◌==◌, ◌||◌, ◌&&◌, if◌then◌else◌, inl, inr, Bool-cases, lt_or_ge,
}
use gtp_rs.Base.{contains, maximum, is_empty, IsDistinct, contains-above_maximum}
use gtp_rs.Types.Errors.{Result, ok, err, replay_detected}
use gtp_rs.Crypto.Replay.{
  ReplayWindow, new, is_bit_set, set_bit, shift_bitmap, check, advance, commit,
}
use gtp_rs.Crypto.Replay.{check_and_update}
use gtp_rs.Crypto.Replay.Bits.{IsWord64, is_bit_set-set_bit, is_bit_set-shift_bitmap}
use gtp_rs.Base.{le→leb, lt→leb, lt→ltb, le→ltb}
use gtp_rs.Crypto.Replay.Bits.{has_bit-one}
use gtp_rs.Crypto.Replay.Bits.{shift_bitmap-IsWord64, set_bit-IsWord64, is_bit_set-cleared}

-- The window after the numbers of a history, newest first.
unfoldable pub commit_all : List ℕ → ReplayWindow
commit_all [] = new
commit_all (pn ∷ older) = commit (commit_all older) pn

-- What a replay filter promises: a number is accepted when nothing was committed before, or when
-- it was not committed and is less than 128 behind the newest one.
abbrev pub accepts : List ℕ → ℕ → Bool
accepts hist pn = is_empty hist || (not (contains hist pn) && ltb (maximum hist) (pn + 128))

-- The flags of the window tell which of the newest 128 numbers stand in the history.
pub record Tracks (w : ReplayWindow) (hist : List ℕ) : Type 0 where
  pub started : w.initialized ≡ not (is_empty hist)
  pub newest : w.largest_seen ≡ maximum hist
  pub words : IsWord64 w
  pub flags :
      (i : ℕ)
      → i < 128
      → is_bit_set w i ≡ (leb i w.largest_seen && contains hist (w.largest_seen - i))

new-Tracks : Tracks new []
unfolding new
new-Tracks = record {
  started = refl;
  newest = refl;
  words = omega arith;
  flags = λ i h. is_bit_set-cleared new i ∙ ground arith;
}

same_flags :
    (w : ReplayWindow) (n i : ℕ) → is_bit_set (record w { largest_seen = n }) i ≡ is_bit_set w i
unfolding is_bit_set
same_flags w n i = refl

advance_flags :
    (w : ReplayWindow) (pn i : ℕ)
    → IsWord64 w
    → w.largest_seen < pn
    → i < 128
    → is_bit_set (advance w pn) i
      ≡ (if ltb i (pn - w.largest_seen) then false else is_bit_set w (i - (pn - w.largest_seen)))
unfolding advance
advance_flags w pn i v h k = elim (lt_or_ge (pn - w.largest_seen) 128) [
  | inl near ↦ rw (lt→leb _ _ near) (
      same_flags (shift_bitmap w (pn - w.largest_seen)) pn i
      ∙ is_bit_set-shift_bitmap w (pn - w.largest_seen) i v near k)
  | inr far ↦ rw (le→leb _ _ far) (
      same_flags (record w { bitmap0 = 0; bitmap1 = 0 }) pn i
      ∙ is_bit_set-cleared w i
      ∙ ground arith)
]

advance-IsWord64 : (w : ReplayWindow) (pn : ℕ) → IsWord64 w → IsWord64 (advance w pn)
unfolding advance
advance-IsWord64 w pn v = ground (arith, shift_bitmap-IsWord64 w (pn - w.largest_seen) v)

advance_newest : (w : ReplayWindow) (pn : ℕ) → (advance w pn).largest_seen ≡ pn
unfolding advance
advance_newest w pn = refl

advance_started : (w : ReplayWindow) (pn : ℕ) → (advance w pn).initialized ≡ w.initialized
unfolding advance shift_bitmap
advance_started w pn = ground arith

set_bit_frame :
    (w : ReplayWindow) (j : ℕ)
    → ((set_bit w j).largest_seen ≡ w.largest_seen) × ((set_bit w j).initialized ≡ w.initialized)
unfolding set_bit
set_bit_frame w j = ground arith

-- The first number sets flag 0 of word 0.
first_flags :
    (w : ReplayWindow) (pn i : ℕ)
    → i < 128
    → ((j : ℕ) → j < 128 → is_bit_set w j ≡ false)
    → is_bit_set (record w { initialized = true; largest_seen = pn; bitmap0 = 1 }) i ≡ (i == 0)
unfolding is_bit_set
first_flags w pn i k clear = ground (arith, has_bit-one i, clear i)

module _ (w : ReplayWindow) (hist : List ℕ) (pn : ℕ) (t : Tracks w hist) where
  newer-Tracks :
      w.initialized ≡ true → w.largest_seen < pn → Tracks (set_bit (advance w pn) 0) (pn ∷ hist)
  newer-Tracks e h = record {
    started = frame.1 ∙ advance_started w pn ∙ e;
    newest = ground (arith, frame.0, advance_newest w pn, t.newest);
    words = set_bit-IsWord64 (advance w pn) 0 (advance-IsWord64 w pn t.words);
    flags = λ i k. elim (lt_or_ge i (pn - w.largest_seen)) [
      | inl low ↦ ground (arith, facts i k, contains-above_maximum hist (pn - i))
      | inr high ↦ ground (
        arith,
        facts i k,
        t.flags (i - (pn - w.largest_seen)),
        ap (contains hist) (same_place i high),
      )
    ];
  }
    where
      frame :
          ((set_bit (advance w pn) 0).largest_seen ≡ (advance w pn).largest_seen)
          × ((set_bit (advance w pn) 0).initialized ≡ (advance w pn).initialized)
      frame = set_bit_frame (advance w pn) 0

      facts :
          (i : ℕ)
          → i < 128
          → ((set_bit (advance w pn) 0).largest_seen ≡ pn)
            × (w.largest_seen ≡ maximum hist)
            × (is_bit_set (set_bit (advance w pn) 0) i ≡ (
                i == 0
                || (if ltb i (pn - w.largest_seen)
                    then false
                    else is_bit_set w (i - (pn - w.largest_seen)))))
      facts i k = (
        frame.0 ∙ advance_newest w pn,
        t.newest,
        is_bit_set-set_bit (advance w pn) 0 i (omega arith)
            ∙ ap (λ (b : Bool). i == 0 || b) (advance_flags w pn i t.words h k),
      )

      same_place :
          (i : ℕ) → pn - w.largest_seen ≤ i → w.largest_seen - (i - (pn - w.largest_seen)) ≡ pn - i
      same_place i g = omega arith

  older-Tracks :
      w.initialized ≡ true
      → pn ≤ w.largest_seen
      → w.largest_seen - pn < 128
      → Tracks (set_bit w (w.largest_seen - pn)) (pn ∷ hist)
  older-Tracks e h k = record {
    started = frame.1 ∙ e;
    newest = ground (arith, frame.0, t.newest);
    words = set_bit-IsWord64 w (w.largest_seen - pn) t.words;
    flags =
        λ i l. ground (arith, frame.0, is_bit_set-set_bit w (w.largest_seen - pn) i k, t.flags i l);
  }
    where
      frame :
          ((set_bit w (w.largest_seen - pn)).largest_seen ≡ w.largest_seen)
          × ((set_bit w (w.largest_seen - pn)).initialized ≡ w.initialized)
      frame = set_bit_frame w (w.largest_seen - pn)

  ancient-Tracks : w.initialized ≡ true → pn + 128 ≤ w.largest_seen → Tracks w (pn ∷ hist)
  ancient-Tracks e h = record {
    started = e;
    newest = ground (arith, t.newest);
    words = t.words;
    flags = λ i k. ground (arith, t.flags i k);
  }

first-Tracks : (w : ReplayWindow) (pn : ℕ) → Tracks w [] → Tracks (commit w pn) (pn ∷ [])
unfolding commit
first-Tracks w pn t = rw t.started (record {
  started = refl;
  newest = omega arith;
  words = record { low = omega arith; high = t.words.high };
  flags = λ i k. first_flags w pn i k (λ j l. t.flags j l ∙ ground arith) ∙ ground arith;
})

commit_newer :
    (w : ReplayWindow) (pn : ℕ)
    → w.initialized ≡ true
    → w.largest_seen < pn
    → commit w pn ≡ set_bit (advance w pn) 0
unfolding commit
commit_newer w pn e h = ground arith

commit_older :
    (w : ReplayWindow) (pn : ℕ)
    → w.initialized ≡ true
    → pn ≤ w.largest_seen
    → commit w pn ≡ (if ltb (w.largest_seen - pn) 128 then set_bit w (w.largest_seen - pn) else w)
unfolding commit
commit_older w pn e h = ground arith

-- Committing a number adds it to the history that the flags stand for.
pub commit-Tracks :
    (w : ReplayWindow) (hist : List ℕ) (pn : ℕ) → Tracks w hist → Tracks (commit w pn) (pn ∷ hist)
commit-Tracks w [] pn t = first-Tracks w pn t
commit-Tracks w (x ∷ hist) pn t = elim (lt_or_ge w.largest_seen pn) [
  | inl newer ↦ rw (commit_newer w pn t.started newer) (newer-Tracks w _ pn t t.started newer)
  | inr older ↦ elim (lt_or_ge (w.largest_seen - pn) 128) [
    | inl near ↦
        rw (commit_older w pn t.started older, lt→ltb _ _ near)
          (older-Tracks w _ pn t t.started older near)
    | inr far ↦
        rw (commit_older w pn t.started older, le→ltb _ _ far)
          (ancient-Tracks w _ pn t t.started (omega arith))
  ]
]

pub commit_all-Tracks : (hist : List ℕ) → Tracks (commit_all hist) hist
unfolding commit_all
commit_all-Tracks [] = new-Tracks
commit_all-Tracks (pn ∷ older) = commit-Tracks (commit_all older) older pn (commit_all-Tracks older)

check-Tracks :
    (w : ReplayWindow) (hist : List ℕ) (pn : ℕ)
    → Tracks w hist
    → check w pn ≡ (if accepts hist pn then ok tt else err replay_detected)
unfolding check
check-Tracks w [] pn t = ground (arith, t.started)
check-Tracks w (x ∷ hist) pn t = elim (lt_or_ge w.largest_seen pn) [
  | inl newer ↦ ground (arith, t.started, t.newest, contains-above_maximum (x ∷ hist) pn)
  | inr older ↦ ground (
    arith,
    t.started,
    t.newest,
    t.flags (w.largest_seen - pn),
    ap (contains (x ∷ hist)) (back older),
  )
]
  where
    back : pn ≤ w.largest_seen → w.largest_seen - (w.largest_seen - pn) ≡ pn
    back h = omega arith

-- After any history of committed packet numbers, `check` accepts a number exactly when the history
-- is empty, or the number is not in it and is less than 128 below its maximum (or above it);
-- otherwise the answer is `replay_detected`.
pub check-accepts :
    (hist : List ℕ) (pn : ℕ)
    → check (commit_all hist) pn ≡ (if accepts hist pn then ok tt else err replay_detected)
check-accepts hist pn = check-Tracks (commit_all hist) hist pn (commit_all-Tracks hist)

-- The numbers that `check_and_update` let through, newest first, and the window after them.
abbrev keep {ℓ} : {A : Type ℓ} → Result (Unit {0}) → A → List A → List A
keep (ok u) a l = a ∷ l
keep (err e) a l = l

unfoldable pub receive_all : List ℕ → ReplayWindow × List ℕ
receive_all [] = (new, [])
receive_all (pn ∷ earlier) =
    let before = receive_all earlier in
    let after = check_and_update before.0 pn in (after.0, keep after.1 pn before.1)

accepts-not-contains : (hist : List ℕ) (pn : ℕ) → accepts hist pn ≡ true → contains hist pn ≡ false
accepts-not-contains [] pn h = refl
accepts-not-contains (x ∷ hist) pn h = ground arith

check_and_update-Tracks :
    (w : ReplayWindow) (hist : List ℕ) (pn : ℕ)
    → Tracks w hist
    → check_and_update w pn
      ≡ (if accepts hist pn then (commit w pn, ok tt) else (w, err replay_detected))
unfolding check_and_update
check_and_update-Tracks w hist pn t = ground (arith, check-Tracks w hist pn t)

receive-step :
    (w : ReplayWindow) (got : List ℕ) (pn : ℕ)
    → Tracks w got
    → IsDistinct got
    → Tracks (check_and_update w pn).0 (keep (check_and_update w pn).1 pn got)
      × IsDistinct (keep (check_and_update w pn).1 pn got)
receive-step w got pn t d = elim (Bool-cases (accepts got pn)) [
  | inl new_one ↦
      rw (check_and_update-Tracks w got pn t, new_one)
        (commit-Tracks w got pn t, (accepts-not-contains got pn new_one, d))
  | inr old_one ↦ rw (check_and_update-Tracks w got pn t, old_one) (t, d)
]

receive_all-Tracks :
    (arrivals : List ℕ)
    → Tracks (receive_all arrivals).0 (receive_all arrivals).1 × IsDistinct (receive_all arrivals).1
unfolding receive_all
receive_all-Tracks [] = (new-Tracks, tt)
receive_all-Tracks (pn ∷ earlier) =
    let (t, d) = receive_all-Tracks earlier in
    receive-step (receive_all earlier).0 (receive_all earlier).1 pn t d

-- Whatever packet numbers arrive, in whatever order and how often, `check_and_update` never lets
-- the same number through twice.
pub receive_all-IsDistinct : (arrivals : List ℕ) → IsDistinct (receive_all arrivals).1
receive_all-IsDistinct arrivals = (receive_all-Tracks arrivals).1
