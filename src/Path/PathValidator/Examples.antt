-- ===== src/Path/PathValidator/Examples.antt =====
-- The challenge theorems with ports in the place of socket addresses.
use gtp_rs.Base.{ℕ, ◌+◌, ◌≤◌, ◌≡◌, refl, ◌==◌, ==_iff, none, List, [], ◌∷◌, replicate}
use gtp_rs.Path.PathValidator.{path_challenge_timeout, start_challenge, expire, validate_response}
use gtp_rs.Path.PathValidator.Challenges.{Event, challenge, tick, response}
use gtp_rs.Path.PathValidator.History.{IsOpen, after_all, validate_response-IsOpen}

abbrev nonce : List ℕ
nonce = replicate 8 0x5a

abbrev challenged : List (Event ℕ)
challenged = tick 1500000 ∷ challenge 5000 nonce 1000000 ∷ []

abbrev replay : List (Event ℕ)
replay =
    challenge 5000 nonce 1000000
    ∷ response 5000 nonce 2000000
    ∷ response 5000 nonce 2100000
    ∷ tick 9000000
    ∷ []

-- The port stands for the address, and equality of numbers for that of addresses.
validate_response-IsOpen_example :
    ((start : ℕ) × IsOpen ◌==◌ challenged 5000 nonce start
      × (2000000 ≤ start + path_challenge_timeout))
    × ((after_all ◌==◌ (response 5000 nonce 2000000 ∷ challenged)).pending_challenge ≡ none)
unfolding validate_response start_challenge expire
validate_response-IsOpen_example =
    validate_response-IsOpen ◌==◌ challenged 5000 nonce 2000000 (λ a b h. (==_iff a b).0 h) refl
