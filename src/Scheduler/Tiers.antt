-- ===== src/Scheduler/Tiers.antt =====
-- crates/gtp-scheduler/src/scheduler.rs: the queues of the priority tiers, the first served strictly
-- first and the others by deficit round robin (Tiers/Service). An array over the tiers is a function
-- of the index.
pub mod Service
pub mod Invariant
pub mod Rounds
pub mod Counters
pub mod Popping
pub mod Priority
pub mod Scan
pub mod Progress
mod Examples
use gtp_rs.Base.{
  ℕ, zero, suc, ◌+◌, ◌-◌, ◌*◌, ◌%◌, min, ltb, leb, ◌==◌, ◌&&◌, not, if◌then◌else◌, Bool, true,
  false, Option, none, some, List, [], ◌∷◌, ◌++◌, length, get_elem?,
}
use gtp_rs.Types.Errors.{Result, ok, err, message_expired, resource_limit_exceeded}
use gtp_rs.Types.Serial.{StateKey}
use gtp_rs.Types.Semantics.{
  MessageClass, unreliable, unreliable_sequenced, reliable_unordered, reliable_ordered,
  PriorityTier, p0_control, p1_input, p2_world_state, p3_reliable_gameplay, p4_bulk_cosmetic,
  all_tiers, default_weight,
}
use gtp_rs.Scheduler.StateTable.{
  StateTable, default_state_table_capacity, with_capacity, should_admit, update,
}
use gtp_rs.Scheduler.Item.{SchedulableItem, is_expired, size_bytes}

abbrev pub default_max_queue_items_per_tier : ℕ
default_max_queue_items_per_tier = 4096

abbrev pub drr_first_tier : ℕ
drr_first_tier = 1

abbrev pub drr_tier_count : ℕ
drr_tier_count = 4

abbrev pub deficit_cap_factor : ℕ
deficit_cap_factor = 4

-- `priority as usize`.
abbrev pub tier_index : PriorityTier → ℕ
tier_index p0_control = 0
tier_index p1_input = 1
tier_index p2_world_state = 2
tier_index p3_reliable_gameplay = 3
tier_index p4_bulk_cosmetic = 4

abbrev weight_at : Option PriorityTier → ℕ
weight_at none = 0
weight_at (some p) = default_weight p

-- Every index of the source is below 5, the number of tiers.
unfoldable pub tier_quantum : ℕ → ℕ
tier_quantum idx = weight_at (get_elem? all_tiers idx) * 100

-- An array, and the assignment to one of its elements.
abbrev pub Tiered {ℓ} : Type ℓ → Type ℓ
Tiered A = ℕ → A

abbrev pub put {ℓ} : {A : Type ℓ} → Tiered A → ℕ → A → Tiered A
put a i v j = if j == i then v else a j

pub record GameScheduler : Type 0 where
  pub queues : Tiered (List SchedulableItem)
  pub deficits : Tiered ℕ
  pub accrued : Tiered Bool
  pub drr_pointer : ℕ
  pub state_table : StateTable
  pub max_queue_bytes_per_tier : Tiered ℕ
  pub max_queue_items_per_tier : ℕ
  pub queue_bytes : Tiered ℕ
  pub queue_items : Tiered ℕ

unfoldable pub with_per_tier_caps_and_item_limit : Tiered ℕ → ℕ → GameScheduler
with_per_tier_caps_and_item_limit max_queue_bytes_per_tier max_queue_items_per_tier = record {
  queues = λ t. [];
  deficits = λ t. 0;
  accrued = λ t. false;
  drr_pointer = drr_first_tier;
  state_table = with_capacity default_state_table_capacity;
  max_queue_bytes_per_tier = max_queue_bytes_per_tier;
  max_queue_items_per_tier = max_queue_items_per_tier;
  queue_bytes = λ t. 0;
  queue_items = λ t. 0;
}

abbrev pub with_item_limit : ℕ → ℕ → GameScheduler
with_item_limit max_queue_bytes_per_tier max_queue_items_per_tier =
    with_per_tier_caps_and_item_limit (λ t. max_queue_bytes_per_tier) max_queue_items_per_tier

abbrev pub with_per_tier_byte_caps : Tiered ℕ → GameScheduler
with_per_tier_byte_caps caps =
    with_per_tier_caps_and_item_limit caps default_max_queue_items_per_tier

abbrev pub new : ℕ → GameScheduler
new max_queue_bytes_per_tier =
    with_item_limit max_queue_bytes_per_tier default_max_queue_items_per_tier

abbrev pub default_scheduler : GameScheduler
default_scheduler = new (512 * 1024)

-- `retain`: the items that fail the test stay.
abbrev pub retain : (SchedulableItem → Bool) → List SchedulableItem → List SchedulableItem
retain gone [] = []
retain gone (i ∷ q) = let rest = retain gone q in if gone i then rest else i ∷ rest

abbrev pub removed_bytes : (SchedulableItem → Bool) → List SchedulableItem → ℕ
removed_bytes gone [] = 0
removed_bytes gone (i ∷ q) =
    let rest = removed_bytes gone q in if gone i then size_bytes i + rest else rest

abbrev pub removed_items : (SchedulableItem → Bool) → List SchedulableItem → ℕ
removed_items gone [] = 0
removed_items gone (i ∷ q) = let rest = removed_items gone q in if gone i then suc rest else rest

-- `retain` on the queue of a tier, and its counters.
unfoldable pub drop_items : GameScheduler → ℕ → (SchedulableItem → Bool) → GameScheduler
drop_items s t gone = record s {
  queues = put s.queues t (retain gone (s.queues t));
  queue_bytes = put s.queue_bytes t (s.queue_bytes t - removed_bytes gone (s.queues t));
  queue_items = put s.queue_items t (s.queue_items t - removed_items gone (s.queues t));
}

unfoldable pub push_back : GameScheduler → ℕ → SchedulableItem → GameScheduler
push_back s t item = record s {
  queues = put s.queues t (s.queues t ++ (item ∷ []));
  queue_bytes = put s.queue_bytes t (s.queue_bytes t + size_bytes item);
  queue_items = put s.queue_items t (s.queue_items t + 1);
}

unfoldable pub push_front : GameScheduler → ℕ → SchedulableItem → GameScheduler
push_front s t item = record s {
  queues = put s.queues t (item ∷ s.queues t);
  queue_bytes = put s.queue_bytes t (s.queue_bytes t + size_bytes item);
  queue_items = put s.queue_items t (s.queue_items t + 1);
}

-- The message that the state table no longer wants leaves the queue of the tier.
abbrev pub superseding : GameScheduler → ℕ → StateTable × Option ℕ → GameScheduler
superseding s t (table, none) = record s { state_table = table }
superseding s t (table, some superseded_id) =
    drop_items (record s { state_table = table }) t (λ i. i.message_id == superseded_id)

abbrev pub enqueue_class : GameScheduler → MessageClass → SchedulableItem → GameScheduler
enqueue_class s unreliable item = push_back s (tier_index item.priority) item
enqueue_class s (unreliable_sequenced state_key sequence generation) item =
    if not (should_admit s.state_table state_key generation sequence)
    then s
    else push_back
        (superseding s (tier_index item.priority)
          (update s.state_table state_key generation sequence item.message_id))
        (tier_index item.priority) item
enqueue_class s reliable_unordered item = push_back s (tier_index item.priority) item
enqueue_class s (reliable_ordered group sequence) item = push_back s (tier_index item.priority) item

-- The checks on admission; an error leaves the scheduler as it is.
unfoldable pub admitted : GameScheduler → SchedulableItem → ℕ → GameScheduler → Result GameScheduler
admitted s item now next =
    if is_expired item now
    then err message_expired
    else if ltb (s.max_queue_bytes_per_tier (tier_index item.priority))
        (s.queue_bytes (tier_index item.priority) + size_bytes item)
    then err (resource_limit_exceeded "Scheduler queue tier capacity reached")
    else if ltb s.max_queue_items_per_tier (s.queue_items (tier_index item.priority) + 1)
    then err (resource_limit_exceeded "Scheduler queue tier item capacity reached")
    else ok next

unfoldable pub enqueue : GameScheduler → SchedulableItem → ℕ → Result GameScheduler
enqueue s item now = admitted s item now (enqueue_class s item.class item)

unfoldable pub requeue : GameScheduler → SchedulableItem → ℕ → Result GameScheduler
requeue s item now = admitted s item now (push_front s (tier_index item.priority) item)

-- `prune_stale` on the tiers of a list, with the number of items pruned.
unfoldable pub prune_loop : List ℕ → GameScheduler → ℕ → GameScheduler × ℕ
prune_loop [] s now = (s, 0)
prune_loop (t ∷ ts) s now =
    let rest = prune_loop ts (drop_items s t (λ i. is_expired i now)) now in
    (rest.0, removed_items (λ i. is_expired i now) (s.queues t) + rest.1)

abbrev pub tier_indices : List ℕ
tier_indices = 0 ∷ 1 ∷ 2 ∷ 3 ∷ 4 ∷ []

abbrev pub prune_stale : GameScheduler → ℕ → GameScheduler × ℕ
prune_stale s now = prune_loop tier_indices s now

-- The bytes of the items that are not expired.
abbrev pub live_bytes : ℕ → List SchedulableItem → ℕ
live_bytes now [] = 0
live_bytes now (i ∷ q) =
    let rest = live_bytes now q in if is_expired i now then rest else size_bytes i + rest

abbrev pub effective_loop : List ℕ → GameScheduler → ℕ → ℕ
effective_loop [] s now = 0
effective_loop (t ∷ ts) s now = live_bytes now (s.queues t) + effective_loop ts s now

abbrev pub effective_queue_bytes : GameScheduler → ℕ → ℕ
effective_queue_bytes s now = effective_loop tier_indices s now

abbrev pub queue_tier_bytes : GameScheduler → PriorityTier → ℕ
queue_tier_bytes s tier = s.queue_bytes (tier_index tier)

abbrev pub queue_tier_items : GameScheduler → PriorityTier → ℕ
queue_tier_items s tier = s.queue_items (tier_index tier)

abbrev pub all_empty : List ℕ → GameScheduler → Bool
all_empty [] s = true
all_empty (t ∷ ts) s = length (s.queues t) == 0 && all_empty ts s

abbrev pub is_empty : GameScheduler → Bool
is_empty s = all_empty tier_indices s
