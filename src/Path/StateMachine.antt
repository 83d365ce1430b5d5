-- ===== src/Path/StateMachine.antt =====
-- crates/gtp-path/src/state_machine.rs: the connection lifecycle.
pub mod Lifecycle
mod Examples
use gtp_rs.Base.{Bool, true, false}
use gtp_rs.Types.Errors.{Result, ok, err, protocol_violation}

pub data ConnectionState : Type 0 where
  initial handshaking validated established draining closed : ConnectionState

pub is_active : ConnectionState → Bool
is_active established = true
is_active _ = false

pub is_closed : ConnectionState → Bool
is_closed closed = true
is_closed _ = false

-- The new state; a refused transition leaves the old one.
unfoldable pub transition_to : ConnectionState → ConnectionState → Result ConnectionState
transition_to initial handshaking = ok handshaking
transition_to initial validated = ok validated
transition_to initial closed = ok closed
transition_to handshaking validated = ok validated
transition_to validated established = ok established
transition_to established draining = ok draining
transition_to established closed = ok closed
transition_to draining closed = ok closed
transition_to handshaking closed = ok closed
transition_to validated closed = ok closed
transition_to _ _ = err (protocol_violation "Illegal state transition")
