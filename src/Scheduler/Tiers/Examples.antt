-- ===== src/Scheduler/Tiers/Examples.antt =====
-- The scheduler on a few messages, and its theorems there.
use gtp_rs.Base.{ℕ, ◌≡◌, refl, arith, Option, none, some, List, [], ◌∷◌, replicate, false}
use gtp_rs.Types.Semantics.{
  unreliable, PriorityTier, p0_control, p1_input, p4_bulk_cosmetic, default_weight,
}
use gtp_rs.Scheduler.Item.{SchedulableItem, is_expired}
use gtp_rs.Scheduler.Tiers.{
  GameScheduler, Tiered, with_per_tier_caps_and_item_limit, enqueue, admitted, push_back,
  tier_quantum,
}
use gtp_rs.Scheduler.Tiers.Service.{
  pop_next, pop_control, round_robin, next_tier, serve, accrue, pass, discard,
}
use gtp_rs.Scheduler.Tiers.Invariant.{IsScheduler}
use gtp_rs.Scheduler.Tiers.Counters.{Operation, enqueues, perform_all, run-IsScheduler}
use gtp_rs.Scheduler.Tiers.Popping.{IsPop, pop_next-IsPop}
use gtp_rs.Scheduler.Tiers.Priority.{IsStrict, pop_next-IsStrict}
use gtp_rs.Scheduler.Tiers.Progress.{IsIdle, pop_next-IsIdle}

abbrev message : ℕ → PriorityTier → ℕ → Option ℕ → SchedulableItem
message id tier size deadline = record {
  message_id = id;
  class = unreliable;
  priority = tier;
  created_at = 0;
  deadline = deadline;
  supersedable = false;
  payload = replicate size 0;
  fragment_id = 0;
  total_fragments = 1;
}

abbrev caps : Tiered ℕ
caps t = 4000

-- Two inputs, the first with a deadline, a large effect and a control message.
abbrev calls : List Operation
calls =
    enqueues (message 1 p1_input 10 (some 50)) 0
    ∷ enqueues (message 2 p1_input 20 none) 0
    ∷ enqueues (message 3 p4_bulk_cosmetic 30 none) 0
    ∷ enqueues (message 4 p0_control 8 none) 0
    ∷ []

abbrev loaded : GameScheduler
loaded = perform_all (with_per_tier_caps_and_item_limit caps 8) calls

abbrev popped : Option SchedulableItem → Option ℕ
popped none = none
popped (some item) = some item.message_id

-- The control message is sent first; then, at the time 60, the input that is not expired.
first_pop : popped (pop_next loaded 1000 60).1 ≡ some 4
unfolding enqueue admitted push_back with_per_tier_caps_and_item_limit is_expired pop_next
    pop_control discard
first_pop = refl

second_pop : popped (pop_next (pop_next loaded 1000 60).0 1000 60).1 ≡ some 2
unfolding enqueue admitted push_back with_per_tier_caps_and_item_limit is_expired pop_next
    pop_control discard round_robin next_tier serve accrue pass tier_quantum default_weight
second_pop = refl

run-IsScheduler_example : IsScheduler caps 8 loaded
run-IsScheduler_example = run-IsScheduler caps 8 calls

pop_next-IsPop_example : IsPop 1000 60 loaded.queues (pop_next loaded 1000 60)
pop_next-IsPop_example = pop_next-IsPop loaded 1000 60 (run-IsScheduler caps 8 calls)

pop_next-IsStrict_example : IsStrict 1000 60 (pop_next loaded 1000 60)
pop_next-IsStrict_example =
    pop_next-IsStrict loaded 1000 60 (run-IsScheduler caps 8 calls) (omega arith)

pop_next-IsIdle_example : IsIdle 5 60 (pop_next loaded 5 60)
pop_next-IsIdle_example = pop_next-IsIdle loaded 5 60 (run-IsScheduler caps 8 calls) (omega arith)
