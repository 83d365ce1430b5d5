-- ===== src/Crypto/Replay/Examples.antt =====
-- The window on the runs of the source's own tests, and its theorems at concrete histories.
use gtp_rs.Base.{◌≡◌, refl, [], ◌∷◌, IsDistinct}
use gtp_rs.Types.Errors.{ok, err, replay_detected}
use gtp_rs.Crypto.Replay.{
  new, check, commit, check_and_update, is_bit_set, set_bit, advance, shift_bitmap,
}
use gtp_rs.Crypto.Replay.Refine.{commit_all, receive_all, check-accepts, receive_all-IsDistinct}

-- 100, then 95 and 150: 140 is new, 10 is too old.
out_of_order : check (commit_all (150 ∷ 95 ∷ 100 ∷ [])) 140 ≡ ok tt
unfolding check commit_all commit new is_bit_set set_bit advance shift_bitmap
out_of_order = refl

too_old : check (commit_all (150 ∷ 95 ∷ 100 ∷ [])) 10 ≡ err replay_detected
unfolding check commit_all commit new is_bit_set set_bit advance shift_bitmap
too_old = refl

delivered : (receive_all (101 ∷ 300 ∷ 101 ∷ 100 ∷ 101 ∷ [])).1 ≡ 300 ∷ 100 ∷ 101 ∷ []
unfolding receive_all check_and_update check commit new is_bit_set set_bit advance shift_bitmap
delivered = refl

check-accepts_example : check (commit_all (150 ∷ 95 ∷ 100 ∷ [])) 95 ≡ err replay_detected
check-accepts_example = check-accepts (150 ∷ 95 ∷ 100 ∷ []) 95

receive_all-IsDistinct_example : IsDistinct (receive_all (101 ∷ 300 ∷ 101 ∷ 100 ∷ 101 ∷ [])).1
receive_all-IsDistinct_example = receive_all-IsDistinct (101 ∷ 300 ∷ 101 ∷ 100 ∷ 101 ∷ [])
