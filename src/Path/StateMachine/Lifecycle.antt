-- ===== src/Path/StateMachine/Lifecycle.antt =====
-- What every sequence of requested transitions obeys.
use gtp_rs.Base.{ℕ, ◌<◌, ◌≡◌, ◌≢◌, refl, arith, List, [], ◌∷◌, ◌⊎◌, inl, inr}
use gtp_rs.Types.Errors.{Result, ok, err}
use gtp_rs.Path.StateMachine.{
  ConnectionState, initial, handshaking, validated, established, draining, closed, transition_to,
}

-- The stage of the lifecycle.
abbrev pub stage : ConnectionState → ℕ
stage initial = 0
stage handshaking = 1
stage validated = 2
stage established = 3
stage draining = 4
stage closed = 5

-- A transition that is granted goes to the state asked for, and forward in the lifecycle.
pub transition_to_forward :
    (s t u : ConnectionState) → transition_to s t ≡ ok u → (u ≡ t) × (stage s < stage t)
unfolding transition_to
transition_to_forward s t u e = ground arith

-- A connection can be closed from every state but the closed one.
pub transition_to_closed : (s : ConnectionState) → s ≢ closed → transition_to s closed ≡ ok closed
unfolding transition_to
transition_to_closed initial h = refl
transition_to_closed handshaking h = refl
transition_to_closed validated h = refl
transition_to_closed established h = refl
transition_to_closed draining h = refl
transition_to_closed closed h = absurd (h refl)

-- The state after some requests, refused ones included, and the states entered on the way.
abbrev after : ConnectionState → Result ConnectionState → ConnectionState
after s (ok t) = t
after s (err e) = s

unfoldable pub run : ConnectionState → List ConnectionState → ConnectionState
run s [] = s
run s (t ∷ ts) = run (after s (transition_to s t)) ts

abbrev pub Entered : ConnectionState → ConnectionState → List ConnectionState → Type 0
Entered goal s [] = s ≡ goal
Entered goal s (t ∷ ts) = (s ≡ goal) ⊎ Entered goal (after s (transition_to s t)) ts

established_entry :
    (s t : ConnectionState)
    → after s (transition_to s t) ≡ established
    → (s ≡ validated) ⊎ (s ≡ established)
unfolding transition_to
established_entry s t e = ground arith

Entered-start :
    (goal s : ConnectionState) (ts : List ConnectionState) → s ≡ goal → Entered goal s ts
Entered-start goal s [] e = e
Entered-start goal s (t ∷ ts) e = inl e

-- Whatever is requested, a connection that is established at the end was established at the start
-- or was in the validated state on the way.
pub run-established :
    (ts : List ConnectionState) (s : ConnectionState)
    → run s ts ≡ established
    → (s ≡ established) ⊎ Entered validated s ts
unfolding run
run-established [] s e = inl e
run-established (t ∷ ts) s e = elim (run-established ts (after s (transition_to s t)) e) [
  | inl now ↦ elim (established_entry s t now) [ inl v ↦ inr (inl v) | inr k ↦ inl k ]
  | inr later ↦ inr (inr later)
]
