-- ===== src/Wire/Codec/Termination.antt =====
-- The iterator ends on every payload.
use gtp_rs.Base.{
  ℕ, zero, suc, ◌-◌, ◌≤◌, ◌<◌, ◌≡◌, refl, ap, arith, leb, ◌==◌, Bool-cases, true, false, inl, inr,
  Option, none, some, List, [], ◌∷◌, length,
}
use gtp_rs.Base.Options.{◌>>=◌}
use gtp_rs.Types.Errors.{Result, ok, err}
use gtp_rs.Wire.Frame.{Frame}
use gtp_rs.Wire.Decode.{decode}
use gtp_rs.Wire.Codec.{FrameIterator, next, decoded, remaining, new_iterator}

abbrev on_item :
    FrameIterator × Option (Result Frame)
    → (FrameIterator → Option (List (Result Frame)))
    → Option (List (Result Frame))
on_item (after, none) later = some []
on_item (after, some item) later = do rest ← later after; some (item ∷ rest)

-- The items that a loop over the iterator sees; `none` where the fuel does not reach the end.
unfoldable pub items : ℕ → FrameIterator → Option (List (Result Frame))
items zero it = none
items (suc fuel) it = on_item (next it) (λ after. items fuel after)

-- Only the last item may be an error.
abbrev pub AreOk : List (Result Frame) → Type 0
AreOk [] = Unit {0}
AreOk (item ∷ []) = Unit {0}
AreOk (ok frame ∷ item ∷ more) = AreOk (item ∷ more)
AreOk (err e ∷ item ∷ more) = ⊥

-- What a call of `next` does to an iterator that is not at its end.
abbrev IsStep : FrameIterator → FrameIterator × Option (Result Frame) → Type 0
IsStep it (after, none) = ⊥
IsStep it (after, some (ok frame)) = (after.buf ≡ it.buf) × (it.offset < after.offset)
IsStep it (after, some (err e)) = (after.buf ≡ it.buf) × (after.offset ≡ length it.buf)

decoded-IsStep : (it : FrameIterator) (r : Result (Frame × ℕ)) → IsStep it (decoded it r)
decoded-IsStep it (err e) = (refl, refl)
decoded-IsStep it (ok (frame, consumed)) = elim (Bool-cases (consumed == 0)) [
  | inl stuck ↦ rw stuck (refl, refl)
  | inr moves ↦ rw moves (refl, ground arith)
]

next-end : (it : FrameIterator) → length it.buf ≤ it.offset → next it ≡ (it, none)
unfolding next
next-end it h = let over : leb (length it.buf) it.offset ≡ true = ground arith in rw over refl

next-IsStep : (it : FrameIterator) → it.offset < length it.buf → IsStep it (next it)
unfolding next
next-IsStep it h =
    let more : leb (length it.buf) it.offset ≡ false = ground arith in
    rw more (decoded-IsStep it (decode (remaining it)))

-- The items, if there are any, with at most `n` of them.
abbrev IsRun : ℕ → Option (List (Result Frame)) → Type 0
IsRun n found = (out : List (Result Frame)) × (found ≡ some out) × (length out ≤ n) × AreOk out

pub items-end :
    (fuel : ℕ) (it : FrameIterator) → 0 < fuel → length it.buf ≤ it.offset → items fuel it ≡ some []
unfolding items
items-end zero it h e = elim h [ ]
items-end (suc fuel) it h e = rw (next-end it e) refl

pub items-cons :
    (fuel : ℕ) (it after : FrameIterator) (item : Result Frame) (rest : List (Result Frame))
    → next it ≡ (after, some item)
    → items fuel after ≡ some rest
    → items (suc fuel) it ≡ some (item ∷ rest)
unfolding items
items-cons fuel it after item rest e h = rw (e, h) refl

AreOk-cons : (frame : Frame) (out : List (Result Frame)) → AreOk out → AreOk (ok frame ∷ out)
AreOk-cons frame [] h = tt
AreOk-cons frame (item ∷ more) h = h

items-IsRun :
    (fuel : ℕ) (it : FrameIterator)
    → length it.buf - it.offset < fuel
    → IsRun (length it.buf - it.offset) (items fuel it)
items-IsRun zero it h = elim h [ ]
items-IsRun (suc fuel) it h = elim (Bool-cases (leb (length it.buf) it.offset)) [
  | inl over ↦ ([], items-end (suc fuel) it (omega arith) (ground arith), omega arith, tt)
  | inr more ↦
      by_step (next it) refl (next-IsStep it (ground arith)) (ground arith)
        (λ after smaller. items-IsRun fuel after smaller)
]
  where
    by_step :
        (p : FrameIterator × Option (Result Frame))
        → next it ≡ p
        → IsStep it p
        → it.offset < length it.buf
        → ((after : FrameIterator)
            → length after.buf - after.offset < fuel
            → IsRun (length after.buf - after.offset) (items fuel after))
        → IsRun (length it.buf - it.offset) (items (suc fuel) it)
    by_step (after, none) e step inside further = elim step [ ]
    by_step (after, some (ok frame)) e (same, moved) inside further =
        let (out, found, few, good) =
          further after (omega (arith, ap length same, moved, inside, h)) in
        (
          ok frame ∷ out,
          items-cons fuel it after (ok frame) out e found,
          omega (arith, ap length same, moved, inside, few),
          AreOk-cons frame out good,
        )
    by_step (after, some (err error)) e (same, last) inside further = (
      err error ∷ [],
      items-cons fuel it after (err error) [] e
          (items-end fuel after (omega (arith, inside, h)) (omega (arith, last, ap length same))),
      omega (arith, inside),
      tt,
    )

-- A loop over the frames of any payload ends: after at most as many items as it has bytes, each but
-- the last of which is a frame; only the last may be an error.
pub frames_total :
    (payload : List ℕ)
    → (out : List (Result Frame)) × (items (suc (length payload)) (new_iterator payload) ≡ some out)
      × (length out ≤ length payload)
      × AreOk out
frames_total payload =
    let (out, found, few, good) =
      items-IsRun (suc (length payload)) (new_iterator payload) (omega arith) in
    (out, found, omega (arith, few), good)
