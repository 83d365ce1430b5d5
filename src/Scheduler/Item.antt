-- ===== src/Scheduler/Item.antt =====
-- crates/gtp-scheduler/src/item.rs: a message in a queue of the scheduler.
use gtp_rs.Base.{ℕ, leb, length, Bool, false, Option, none, some, List}
use gtp_rs.Types.Semantics.{MessageClass, PriorityTier}

pub record SchedulableItem : Type 0 where
  pub message_id : ℕ
  pub class : MessageClass
  pub priority : PriorityTier
  pub created_at : ℕ
  pub deadline : Option ℕ
  pub supersedable : Bool
  pub payload : List ℕ
  pub fragment_id : ℕ
  pub total_fragments : ℕ

abbrev passed : Option ℕ → ℕ → Bool
passed none now = false
passed (some dl) now = leb dl now

unfoldable pub is_expired : SchedulableItem → ℕ → Bool
is_expired item now = passed item.deadline now

abbrev pub size_bytes : SchedulableItem → ℕ
size_bytes item = length item.payload
