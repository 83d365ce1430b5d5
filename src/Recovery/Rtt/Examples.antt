-- ===== src/Recovery/Rtt/Examples.antt =====
-- The estimator on the samples of the source's own test.
use gtp_rs.Base.{ℕ, ◌≡◌, refl, arith, [], ◌∷◌}
use gtp_rs.Recovery.Rtt.{new, update, adjusted, rtt_diff}
use gtp_rs.Recovery.Rtt.Bounds.{Within, Sample, update_all, update_all-Within}

abbrev sample : ℕ → ℕ → Sample
sample raw delay = record { raw = raw; ack_delay = delay }

second_sample : (update_all new (sample 60000 5000 ∷ sample 50000 5000 ∷ [])).latest_rtt ≡ 55000
unfolding update_all update new adjusted rtt_diff
second_sample = refl

update_all-Within_example :
    Within 50000 60000
      (update_all new (sample 52000 10000000 ∷ sample 60000 5000 ∷ sample 50000 5000 ∷ []))
update_all-Within_example =
    update_all-Within 50000 60000 (sample 52000 10000000)
      (sample 60000 5000 ∷ sample 50000 5000 ∷ []) (omega arith) (omega arith) (omega arith)
