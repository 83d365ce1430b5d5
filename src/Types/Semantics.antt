-- ===== src/Types/Semantics.antt =====
-- crates/gtp-types/src/semantics.rs: delivery classes, priority tiers and message options.
use gtp_rs.Base.{ℕ, Option, none, Bool, true, List, [], ◌∷◌}
use gtp_rs.Types.Serial.{StateKey}

pub data MessageClass : Type 0 where
  unreliable : MessageClass
  unreliable_sequenced : StateKey → ℕ → ℕ → MessageClass
  reliable_unordered : MessageClass
  reliable_ordered : ℕ → ℕ → MessageClass

pub data PriorityTier : Type 0 where
  p0_control p1_input p2_world_state p3_reliable_gameplay p4_bulk_cosmetic : PriorityTier

abbrev pub all_tiers : List PriorityTier
all_tiers = p0_control ∷ p1_input ∷ p2_world_state ∷ p3_reliable_gameplay ∷ p4_bulk_cosmetic ∷ []

unfoldable pub default_weight : PriorityTier → ℕ
default_weight p0_control = 15
default_weight p1_input = 35
default_weight p2_world_state = 30
default_weight p3_reliable_gameplay = 15
default_weight p4_bulk_cosmetic = 5

pub record MessageOptions : Type 0 where
  pub priority : PriorityTier
  pub deadline : Option ℕ
  pub supersedable : Bool

unfoldable pub default_options : MessageOptions
default_options = record { priority = p2_world_state; deadline = none; supersedable = true }
