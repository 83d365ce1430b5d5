-- ===== src/Scheduler/Tiers/Counters.antt =====
-- Every operation keeps the counters of the tiers in step with their queues, within the caps.
use gtp_rs.Base.{
  ℕ, ◌+◌, ◌-◌, ◌≤◌, ◌≡◌, refl, arith, ltb, ◌==◌, not, Bool, Bool-cases, inl, inr, Option, none,
  some, List, [], ◌∷◌,
}
use gtp_rs.Types.Errors.{Result, ok, err}
use gtp_rs.Types.Semantics.{unreliable, unreliable_sequenced, reliable_unordered, reliable_ordered}
use gtp_rs.Scheduler.StateTable.{StateTable, should_admit, update}
use gtp_rs.Scheduler.Item.{SchedulableItem, is_expired, size_bytes}
use gtp_rs.Scheduler.Tiers.{
  tier_index, Tiered, GameScheduler, with_per_tier_caps_and_item_limit, removed_bytes,
  removed_items, drop_items, superseding, enqueue_class, admitted, enqueue, requeue, prune_loop,
  prune_stale, tier_indices,
}
use gtp_rs.Scheduler.Tiers.Service.{pop_next}
use gtp_rs.Scheduler.Tiers.Invariant.{
  IsScheduler, put_self, drop_items-IsScheduler, push_back-IsScheduler, push_front-IsScheduler,
}
use gtp_rs.Scheduler.Tiers.Rounds.{pop_next-IsScheduler}

superseding-IsScheduler :
    {caps : Tiered ℕ} {limit : ℕ} (s : GameScheduler) (t : ℕ) (u : StateTable × Option ℕ)
    → IsScheduler caps limit s
    → IsScheduler caps limit (superseding s t u)
      × ((superseding s t u).queue_bytes t ≤ s.queue_bytes t)
      × ((superseding s t u).queue_items t ≤ s.queue_items t)
      × ((superseding s t u).max_queue_bytes_per_tier t ≡ s.max_queue_bytes_per_tier t)
      × ((superseding s t u).max_queue_items_per_tier ≡ s.max_queue_items_per_tier)
unfolding drop_items
superseding-IsScheduler s t (table, none) w = (
  record {
    tiers = w.tiers;
    capped = w.capped;
    same_caps = w.same_caps;
    same_limit = w.same_limit;
    cursor = w.cursor;
  },
  omega arith,
  omega arith,
  refl,
  refl,
)
superseding-IsScheduler s t (table, some id) w =
    let gone : SchedulableItem → Bool = λ i. i.message_id == id in
    (
      drop_items-IsScheduler (record s { state_table = table }) t gone
          (record {
            tiers = w.tiers;
            capped = w.capped;
            same_caps = w.same_caps;
            same_limit = w.same_limit;
            cursor = w.cursor;
          }),
      omega (arith, put_self s.queue_bytes t (s.queue_bytes t - removed_bytes gone (s.queues t))),
      omega (arith, put_self s.queue_items t (s.queue_items t - removed_items gone (s.queues t))),
      refl,
      refl,
    )

enqueue_class-IsScheduler :
    {caps : Tiered ℕ} {limit : ℕ} (s : GameScheduler) (item : SchedulableItem)
    → IsScheduler caps limit s
    → s.queue_bytes (tier_index item.priority) + size_bytes item
      ≤ s.max_queue_bytes_per_tier (tier_index item.priority)
    → s.queue_items (tier_index item.priority) + 1 ≤ s.max_queue_items_per_tier
    → IsScheduler caps limit (enqueue_class s item.class item)
enqueue_class-IsScheduler {caps = caps} {limit = limit} s item w light few = by_class item.class
  where
    by_class : (class : _) → IsScheduler caps limit (enqueue_class s class item)
    by_class unreliable = push_back-IsScheduler s item w light few
    by_class reliable_unordered = push_back-IsScheduler s item w light few
    by_class (reliable_ordered group sequence) = push_back-IsScheduler s item w light few
    by_class (unreliable_sequenced key sequence generation) =
        elim (Bool-cases (not (should_admit s.state_table key generation sequence))) [
          | inl outdated ↦ rw outdated w
          | inr newer ↦
              let t = tier_index item.priority in
              let u = update s.state_table key generation sequence item.message_id in
              let (kept, bytes, items, cap, limit) = superseding-IsScheduler s t u w in
              rw newer (
                push_back-IsScheduler (superseding s t u) item kept
                  (omega (arith, bytes, cap, light)) (omega (arith, items, limit, few)))
        ]

-- A result whose state, if there is one, satisfies the invariant.
abbrev pub IsFine : Tiered ℕ → ℕ → Result GameScheduler → Type 0
IsFine caps limit (ok s) = IsScheduler caps limit s
IsFine caps limit (err e) = Unit {0}

admitted-IsFine :
    {caps : Tiered ℕ} {limit : ℕ} (s : GameScheduler) (item : SchedulableItem) (now : ℕ)
    (next : GameScheduler)
    → (s.queue_bytes (tier_index item.priority) + size_bytes item
          ≤ s.max_queue_bytes_per_tier (tier_index item.priority)
        → s.queue_items (tier_index item.priority) + 1 ≤ s.max_queue_items_per_tier
        → IsScheduler caps limit next)
    → IsFine caps limit (admitted s item now next)
unfolding admitted
admitted-IsFine s item now next keeps = elim (Bool-cases (is_expired item now)) [
  | inl expired ↦ rw expired tt
  | inr live ↦
      rw live
        (elim (Bool-cases (
          ltb (s.max_queue_bytes_per_tier (tier_index item.priority))
            (s.queue_bytes (tier_index item.priority) + size_bytes item))) [
              | inl heavy ↦ rw heavy tt
              | inr light ↦
                  rw light
                    (elim (Bool-cases (
                      ltb s.max_queue_items_per_tier
                        (s.queue_items (tier_index item.priority) + 1))) [
                          | inl many ↦ rw many tt
                          | inr few ↦ rw few (keeps (ground arith) (ground arith))
                        ])
            ])
]

enqueue-IsFine :
    {caps : Tiered ℕ} {limit : ℕ} (s : GameScheduler) (item : SchedulableItem) (now : ℕ)
    → IsScheduler caps limit s
    → IsFine caps limit (enqueue s item now)
unfolding enqueue
enqueue-IsFine s item now w = admitted-IsFine s item now _ (enqueue_class-IsScheduler s item w)

requeue-IsFine :
    {caps : Tiered ℕ} {limit : ℕ} (s : GameScheduler) (item : SchedulableItem) (now : ℕ)
    → IsScheduler caps limit s
    → IsFine caps limit (requeue s item now)
unfolding requeue
requeue-IsFine s item now w = admitted-IsFine s item now _ (push_front-IsScheduler s item w)

prune_loop-IsScheduler :
    {caps : Tiered ℕ} {limit : ℕ} (ts : List ℕ) (s : GameScheduler) (now : ℕ)
    → IsScheduler caps limit s
    → IsScheduler caps limit (prune_loop ts s now).0
unfolding prune_loop
prune_loop-IsScheduler [] s now w = w
prune_loop-IsScheduler (t ∷ ts) s now w =
    prune_loop-IsScheduler ts (drop_items s t (λ i. is_expired i now)) now
      (drop_items-IsScheduler s t _ w)

-- What may be called, with its arguments.
pub data Operation : Type 0 where
  enqueues : SchedulableItem → ℕ → Operation
  requeues : SchedulableItem → ℕ → Operation
  pops : ℕ → ℕ → Operation
  prunes : ℕ → Operation

-- The state after a call: an error leaves it as it was.
abbrev pub after : GameScheduler → Result GameScheduler → GameScheduler
after s (ok next) = next
after s (err e) = s

abbrev pub perform : GameScheduler → Operation → GameScheduler
perform s (enqueues item now) = after s (enqueue s item now)
perform s (requeues item now) = after s (requeue s item now)
perform s (pops send_budget now) = (pop_next s send_budget now).0
perform s (prunes now) = (prune_stale s now).0

abbrev pub perform_all : GameScheduler → List Operation → GameScheduler
perform_all s [] = s
perform_all s (o ∷ ops) = perform_all (perform s o) ops

after-IsScheduler :
    {caps : Tiered ℕ} {limit : ℕ} (s : GameScheduler) (r : Result GameScheduler)
    → IsScheduler caps limit s
    → IsFine caps limit r
    → IsScheduler caps limit (after s r)
after-IsScheduler s (ok next) w fine = fine
after-IsScheduler s (err e) w fine = w

perform-IsScheduler :
    {caps : Tiered ℕ} {limit : ℕ} (s : GameScheduler) (o : Operation)
    → IsScheduler caps limit s
    → IsScheduler caps limit (perform s o)
perform-IsScheduler s (enqueues item now) w = after-IsScheduler s _ w (enqueue-IsFine s item now w)
perform-IsScheduler s (requeues item now) w = after-IsScheduler s _ w (requeue-IsFine s item now w)
perform-IsScheduler s (pops send_budget now) w = pop_next-IsScheduler s send_budget now w
perform-IsScheduler s (prunes now) w = prune_loop-IsScheduler tier_indices s now w

new-IsScheduler :
    (caps : Tiered ℕ) (limit : ℕ)
    → IsScheduler caps limit (with_per_tier_caps_and_item_limit caps limit)
unfolding with_per_tier_caps_and_item_limit
new-IsScheduler caps limit = record {
  tiers = λ t. record {
    weighed = refl;
    counted = refl;
    light = omega arith;
    few = omega arith;
    placed = tt;
  };
  same_caps = λ t. refl;
  same_limit = refl;
  capped = λ t. omega arith;
  cursor = (omega arith, omega arith);
}

pub perform_all-IsScheduler :
    {caps : Tiered ℕ} {limit : ℕ} (s : GameScheduler) (ops : List Operation)
    → IsScheduler caps limit s
    → IsScheduler caps limit (perform_all s ops)
perform_all-IsScheduler s [] w = w
perform_all-IsScheduler s (o ∷ ops) w =
    perform_all-IsScheduler (perform s o) ops (perform-IsScheduler s o w)

-- After any calls of enqueue, requeue, pop_next and prune_stale on a new scheduler, in any order: for
-- every tier, its byte counter is the payload bytes in its queue and its item counter the length of
-- its queue, both are within the caps that were asked for, its queue holds items of that priority
-- only, and its deficit is at most four quanta; the cursor is at a tier of the round robin.
pub run-IsScheduler :
    (caps : Tiered ℕ) (limit : ℕ) (ops : List Operation)
    → IsScheduler caps limit (perform_all (with_per_tier_caps_and_item_limit caps limit) ops)
run-IsScheduler caps limit ops = perform_all-IsScheduler _ ops (new-IsScheduler caps limit)
