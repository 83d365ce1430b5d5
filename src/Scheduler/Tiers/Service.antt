-- ===== src/Scheduler/Tiers/Service.antt =====
-- crates/gtp-scheduler/src/scheduler.rs: `pop_next`, which serves the tiers.
use gtp_rs.Base.{
  ℕ, zero, suc, ◌+◌, ◌-◌, ◌*◌, ◌%◌, min, leb, ◌==◌, ◌&&◌, if◌then◌else◌, true, false, Option, none,
  some, List, [], ◌∷◌, length,
}
use gtp_rs.Scheduler.Item.{SchedulableItem, is_expired, size_bytes}
use gtp_rs.Scheduler.Tiers.{
  drr_first_tier, drr_tier_count, deficit_cap_factor, tier_quantum, put, GameScheduler,
}

-- An item at the head of a queue, of which `rest` is left, goes for good.
unfoldable pub discard : GameScheduler → ℕ → SchedulableItem → List SchedulableItem → GameScheduler
discard s t item rest = record s {
  queues = put s.queues t rest;
  queue_bytes = put s.queue_bytes t (s.queue_bytes t - size_bytes item);
  queue_items = put s.queue_items t (s.queue_items t - 1);
}

-- The state with the item that leaves it to be sent, if one does.
abbrev pub Pop : Type 0
Pop = GameScheduler × Option SchedulableItem

abbrev pub or_else : Pop → (GameScheduler → Pop) → Pop
or_else (s, none) next = next s
or_else (s, some item) next = (s, some item)

-- The first loop of `pop_next`, on the queue of the control tier.
unfoldable pub pop_control : List SchedulableItem → GameScheduler → ℕ → ℕ → Pop
pop_control [] s send_budget now = (s, none)
pop_control (item ∷ rest) s send_budget now =
    let expired = pop_control rest (discard s 0 item rest) send_budget now in
    if is_expired item now
    then expired
    else if leb (size_bytes item) send_budget
    then (discard s 0 item rest, some item)
    else (s, none)

-- The scan for the next tier that is not empty; an empty one loses its deficit.
unfoldable pub next_tier : ℕ → ℕ → GameScheduler → GameScheduler × Option ℕ
next_tier zero step s = (s, none)
next_tier (suc steps) step s =
    let t = drr_first_tier + (s.drr_pointer - drr_first_tier + step) % drr_tier_count in
    let passed =
      next_tier steps (step + 1)
        (record s { deficits = put s.deficits t 0; accrued = put s.accrued t false }) in
    if length (s.queues t) == 0 then passed else (s, some t)

unfoldable pub accrue : GameScheduler → ℕ → GameScheduler
accrue s t = if s.accrued t then s else record s {
  deficits =
      put s.deficits t (min (s.deficits t + tier_quantum t) (tier_quantum t * deficit_cap_factor));
  accrued = put s.accrued t true;
}

-- The loop on the queue of a tier.
unfoldable pub serve : List SchedulableItem → GameScheduler → ℕ → ℕ → ℕ → Pop
serve [] s t send_budget now = (s, none)
serve (front ∷ rest) s t send_budget now =
    let expired = serve rest (discard s t front rest) t send_budget now in
    if is_expired front now
    then expired
    else if leb (size_bytes front) send_budget && leb (size_bytes front) (s.deficits t)
    then (
      record (discard s t front rest) {
        deficits = put s.deficits t (s.deficits t - size_bytes front);
        drr_pointer = t;
      },
      some front,
    )
    else (s, none)

-- The tier could not be served: its turn is over.
unfoldable pub pass : GameScheduler → ℕ → GameScheduler
pass s t = record s {
  accrued = put s.accrued t false;
  drr_pointer = drr_first_tier + (t - drr_first_tier + 1) % drr_tier_count;
}

abbrev pub at_tier : GameScheduler × Option ℕ → (GameScheduler → ℕ → Pop) → Pop
at_tier (s, none) turn = (s, none)
at_tier (s, some t) turn = turn s t

unfoldable pub round_robin : ℕ → GameScheduler → ℕ → ℕ → Pop
round_robin zero s send_budget now = (s, none)
round_robin (suc turns) s send_budget now = at_tier (next_tier drr_tier_count 0 s) (λ found t.
    or_else (serve (found.queues t) (accrue found t) t send_budget now)
      (λ served. round_robin turns (pass served t) send_budget now))

unfoldable pub pop_next : GameScheduler → ℕ → ℕ → Pop
pop_next s send_budget now =
    if send_budget == 0
    then (s, none)
    else or_else (pop_control (s.queues 0) s send_budget now)
        (λ control. round_robin drr_tier_count control send_budget now)
