-- ===== src/Path/StateMachine/Examples.antt =====
-- The lifecycle theorems on the runs of the source's own test.
use gtp_rs.Base.{◌≡◌, ◌⊎◌, refl, List, [], ◌∷◌}
use gtp_rs.Path.StateMachine.{
  ConnectionState, initial, handshaking, validated, established, transition_to,
}
use gtp_rs.Path.StateMachine.Lifecycle.{run, Entered, run-established}

abbrev requests : List ConnectionState
requests = established ∷ handshaking ∷ validated ∷ established ∷ []

run-established_example : (initial ≡ established) ⊎ Entered validated initial requests
unfolding run transition_to
run-established_example = run-established requests initial refl
