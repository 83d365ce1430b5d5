-- ===== src/Path/AntiAmplification.antt =====
-- crates/gtp-path/src/anti_amplification.rs: the send budget of an unvalidated peer.
pub mod Budget
mod Examples
use gtp_rs.Base.{ℕ, max, Bool, true, false, leb, if◌then◌else◌}
use gtp_rs.Types.Time.{saturating_add, saturating_mul}

pub record AntiAmplificationLimiter : Type 0 where
  pub bytes_received : ℕ
  pub bytes_sent : ℕ
  pub factor : ℕ
  pub validated : Bool

unfoldable pub new : AntiAmplificationLimiter
new = record { bytes_received = 0; bytes_sent = 0; factor = 3; validated = false }

unfoldable pub with_factor : ℕ → AntiAmplificationLimiter
with_factor factor = record new { factor = max factor 1 }

unfoldable pub set_factor : AntiAmplificationLimiter → ℕ → AntiAmplificationLimiter
set_factor l factor = record l { factor = max factor 1 }

unfoldable pub on_bytes_received : AntiAmplificationLimiter → ℕ → AntiAmplificationLimiter
on_bytes_received l bytes = record l { bytes_received = saturating_add l.bytes_received bytes }

unfoldable pub can_send : AntiAmplificationLimiter → ℕ → Bool
can_send l bytes =
    if l.validated
    then true
    else leb (saturating_add l.bytes_sent bytes) (saturating_mul l.bytes_received l.factor)

unfoldable pub on_bytes_sent : AntiAmplificationLimiter → ℕ → AntiAmplificationLimiter
on_bytes_sent l bytes =
    if l.validated then l else record l { bytes_sent = saturating_add l.bytes_sent bytes }

unfoldable pub mark_validated : AntiAmplificationLimiter → AntiAmplificationLimiter
mark_validated l = record l { validated = true }
