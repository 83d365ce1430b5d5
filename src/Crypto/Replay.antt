-- ===== src/Crypto/Replay.antt =====
-- crates/gtp-crypto/src/replay.rs: the sliding 128-packet window. Words are u64.
pub mod Bits
pub mod Refine
mod Examples
use gtp_rs.Base.{ℕ, ◌+◌, ◌-◌, ◌*◌, ◌/◌, ◌%◌, ◌^◌, Bool, true, false, not, ltb, leb, ◌==◌}
use gtp_rs.Base.{bit_and, bit_or, if◌then◌else◌, List, [], ◌∷◌}
use gtp_rs.Types.Errors.{Result, ok, err, replay_detected, ◌>>=◌}

abbrev pub replay_window_size : ℕ
replay_window_size = 128

pub record ReplayWindow : Type 0 where
  pub largest_seen : ℕ
  pub bitmap0 : ℕ
  pub bitmap1 : ℕ
  pub initialized : Bool

unfoldable pub new : ReplayWindow
new = record { largest_seen = 0; bitmap0 = 0; bitmap1 = 0; initialized = false }

-- `x << s` on a u64.
abbrev pub shl64 : ℕ → ℕ → ℕ
shl64 x s = x * 2 ^ s % 2 ^ 64

-- `(word & (1 << i)) != 0`.
abbrev pub has_bit : ℕ → ℕ → Bool
has_bit word i = not (bit_and word (2 ^ i) == 0)

unfoldable pub is_bit_set : ReplayWindow → ℕ → Bool
is_bit_set w index =
    if ltb index 64
    then has_bit w.bitmap0 index
    else if ltb index 128
    then has_bit w.bitmap1 (index - 64)
    else false

unfoldable pub set_bit : ReplayWindow → ℕ → ReplayWindow
set_bit w index =
    if ltb index 64
    then record w { bitmap0 = bit_or w.bitmap0 (2 ^ index) }
    else if ltb index 128
    then record w { bitmap1 = bit_or w.bitmap1 (2 ^ (index - 64)) }
    else w

-- The word 1 is written first: it reads the word 0 before that is shifted.
unfoldable pub shift_bitmap : ReplayWindow → ℕ → ReplayWindow
shift_bitmap w shift =
    if leb 128 shift
    then record w { bitmap0 = 0; bitmap1 = 0 }
    else if leb 64 shift
    then record w { bitmap0 = 0; bitmap1 = shl64 w.bitmap0 (shift - 64) }
    else record w {
      bitmap0 = shl64 w.bitmap0 shift;
      bitmap1 = bit_or (shl64 w.bitmap1 shift) (w.bitmap0 / 2 ^ (64 - shift));
    }

unfoldable pub check : ReplayWindow → ℕ → Result (Unit {0})
check w pn =
    if not w.initialized
    then ok tt
    else if ltb w.largest_seen pn
    then ok tt
    else if leb replay_window_size (w.largest_seen - pn)
    then err replay_detected
    else if is_bit_set w (w.largest_seen - pn)
    then err replay_detected
    else ok tt

-- The window moved up to the newer number `pn`, before its own bit is set.
unfoldable pub advance : ReplayWindow → ℕ → ReplayWindow
advance w pn =
    let shift = pn - w.largest_seen in
    let shifted =
      if leb replay_window_size shift
      then record w { bitmap0 = 0; bitmap1 = 0 }
      else shift_bitmap w shift in
    record shifted { largest_seen = pn }

unfoldable pub commit : ReplayWindow → ℕ → ReplayWindow
commit w pn =
    if not w.initialized
    then record w { initialized = true; largest_seen = pn; bitmap0 = 1 }
    else if ltb w.largest_seen pn
    then set_bit (advance w pn) 0
    else if ltb (w.largest_seen - pn) replay_window_size
    then set_bit w (w.largest_seen - pn)
    else w

-- The new window and the answer; a refused number leaves the window as it was.
unfoldable pub check_and_update : ReplayWindow → ℕ → ReplayWindow × Result (Unit {0})
check_and_update w pn = elim (check w pn) [ ok u ↦ (commit w pn, ok tt) | err e ↦ (w, err e) ]
