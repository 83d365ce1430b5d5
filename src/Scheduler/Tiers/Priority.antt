-- ===== src/Scheduler/Tiers/Priority.antt =====
-- The control tier is served strictly first.
use gtp_rs.Base.{
  ℕ, zero, suc, ◌+◌, ◌-◌, ◌%◌, ◌≤◌, ◌<◌, ◌≡◌, ◌⊎◌, refl, sym, ap, ◌∙◌, subst, arith, leb, ◌==◌,
  ◌&&◌, Bool-cases, false, inl, inr, Option, none, some, List, [], ◌∷◌, length,
}
use gtp_rs.Scheduler.Item.{SchedulableItem, is_expired, size_bytes}
use gtp_rs.Scheduler.Tiers.{tier_index, put, Tiered, GameScheduler}
use gtp_rs.Scheduler.Tiers.Service.{
  discard, pop_control, next_tier, accrue, serve, pass, at_tier, or_else, round_robin, pop_next,
  Pop,
}
use gtp_rs.Scheduler.Tiers.Invariant.{IsScheduler, AreOf, discard-IsScheduler}
use gtp_rs.Scheduler.Tiers.Rounds.{accrue-queues, in_round}
use gtp_rs.Scheduler.Tiers.Popping.{next_tier-queues}

-- Nothing in the queue can be sent now: it is empty, or its head is not expired and too large.
abbrev pub IsBlocked : ℕ → ℕ → List SchedulableItem → Type 0
IsBlocked send_budget now [] = Unit {0}
IsBlocked send_budget now (item ∷ q) =
    (is_expired item now ≡ false) × (send_budget < size_bytes item)

abbrev pub IsStrict : ℕ → ℕ → Pop → Type 0
IsStrict send_budget now (s, none) = IsBlocked send_budget now (s.queues 0)
IsStrict send_budget now (s, some item) =
    (tier_index item.priority ≡ 0) ⊎ IsBlocked send_budget now (s.queues 0)

pop_control-IsStrict :
    {caps : Tiered ℕ} {limit : ℕ} (send_budget now : ℕ) (q : List SchedulableItem)
    (s : GameScheduler)
    → IsScheduler caps limit s
    → s.queues 0 ≡ q
    → IsStrict send_budget now (pop_control q s send_budget now)
unfolding pop_control
pop_control-IsStrict send_budget now [] s w e = subst (IsBlocked send_budget now) (sym e) tt
pop_control-IsStrict send_budget now (item ∷ rest) s w e =
    let (left, tail) = discard-IsScheduler s 0 item rest w e in
    elim (Bool-cases (is_expired item now)) [
      | inl expired ↦
          rw expired (pop_control-IsStrict send_budget now rest (discard s 0 item rest) left tail)
      | inr live ↦ rw live (elim (Bool-cases (leb (size_bytes item) send_budget)) [
        | inl fits ↦
            rw fits
              (let own : AreOf 0 (item ∷ rest) = subst (AreOf 0) e (w.tiers 0).placed in inl own.0)
        | inr large ↦ rw large (subst (IsBlocked send_budget now) (sym e) (live, ground arith))
      ])
    ]

-- The other tiers leave the queue of the control tier as it is.
put_other {ℓ} : {A : Type ℓ} (a : Tiered A) (t : ℕ) (v : A) → 1 ≤ t → put a t v 0 ≡ a 0
put_other a t v positive = let other : (0 == t) ≡ false = ground arith in rw other refl

serve-control :
    (q : List SchedulableItem) (s : GameScheduler) (t send_budget now : ℕ)
    → 1 ≤ t
    → (serve q s t send_budget now).0.queues 0 ≡ s.queues 0
unfolding serve discard
serve-control [] s t send_budget now positive = refl
serve-control (front ∷ rest) s t send_budget now positive =
    elim (Bool-cases (is_expired front now)) [
      | inl expired ↦ rw expired (
          serve-control rest (discard s t front rest) t send_budget now positive
          ∙ put_other s.queues t rest positive)
      | inr live ↦
          rw live
            (elim (Bool-cases
              (leb (size_bytes front) send_budget && leb (size_bytes front) (s.deficits t))) [
                | inl fits ↦ rw fits (put_other s.queues t rest positive)
                | inr large ↦ rw large refl
              ])
    ]

-- The tier that the scan finds is not the control tier.
abbrev IsLower : GameScheduler × Option ℕ → Type 0
IsLower (s, none) = Unit {0}
IsLower (s, some t) = 1 ≤ t

next_tier-IsLower : (steps step : ℕ) (s : GameScheduler) → IsLower (next_tier steps step s)
unfolding next_tier
next_tier-IsLower zero step s = tt
next_tier-IsLower (suc steps) step s =
    elim (Bool-cases (length (s.queues (1 + (s.drr_pointer - 1 + step) % 4)) == 0)) [
      | inl empty ↦ rw empty (next_tier-IsLower steps (step + 1) _)
      | inr queued ↦ rw queued (in_round (s.drr_pointer - 1 + step)).0
    ]

or_else-control :
    (q : List SchedulableItem) (p : Pop) (next : GameScheduler → Pop)
    → p.0.queues 0 ≡ q
    → ((s : GameScheduler) → (next s).0.queues 0 ≡ s.queues 0)
    → (or_else p next).0.queues 0 ≡ q
or_else-control q (s, none) next e keeps = keeps s ∙ e
or_else-control q (s, some item) next e keeps = e

at_tier-control :
    (q : List SchedulableItem) (f : GameScheduler × Option ℕ) (turn : GameScheduler → ℕ → Pop)
    → IsLower f
    → f.0.queues 0 ≡ q
    → ((s : GameScheduler) (t : ℕ) → 1 ≤ t → (turn s t).0.queues 0 ≡ s.queues 0)
    → (at_tier f turn).0.queues 0 ≡ q
at_tier-control q (s, none) turn low e keeps = e
at_tier-control q (s, some t) turn low e keeps = keeps s t low ∙ e

round_robin-control :
    (turns : ℕ) (s : GameScheduler) (send_budget now : ℕ)
    → (round_robin turns s send_budget now).0.queues 0 ≡ s.queues 0
unfolding round_robin pass
round_robin-control zero s send_budget now = refl
round_robin-control (suc turns) s send_budget now =
    at_tier-control (s.queues 0) (next_tier 4 0 s) _ (next_tier-IsLower 4 0 s)
      (ap (λ l. l 0) (next_tier-queues 4 0 s))
      (λ found t low.
        or_else-control (found.queues 0) (serve (found.queues t) (accrue found t) t send_budget now)
          _
          (serve-control (found.queues t) (accrue found t) t send_budget now low
            ∙ ap (λ l. l 0) (accrue-queues found t))
          (λ served. round_robin-control turns (pass served t) send_budget now))

lower-IsStrict :
    (send_budget now : ℕ) (q : List SchedulableItem) (p : Pop)
    → IsBlocked send_budget now q
    → p.0.queues 0 ≡ q
    → IsStrict send_budget now p
lower-IsStrict send_budget now q (s, none) h e = subst (IsBlocked send_budget now) (sym e) h
lower-IsStrict send_budget now q (s, some item) h e =
    inr (subst (IsBlocked send_budget now) (sym e) h)

or_else-IsStrict :
    (send_budget now : ℕ) (p : Pop)
    → IsStrict send_budget now p
    → IsStrict send_budget now (or_else p (λ control. round_robin 4 control send_budget now))
or_else-IsStrict send_budget now (s, none) h =
    lower-IsStrict send_budget now (s.queues 0) (round_robin 4 s send_budget now) h
      (round_robin-control 4 s send_budget now)
or_else-IsStrict send_budget now (s, some item) h = h

-- With a budget above 0, a pop that returns no control item leaves the queue of the control tier
-- empty or with a head that is not expired and larger than the budget.
pub pop_next-IsStrict :
    {caps : Tiered ℕ} {limit : ℕ} (s : GameScheduler) (send_budget now : ℕ)
    → IsScheduler caps limit s
    → 0 < send_budget
    → IsStrict send_budget now (pop_next s send_budget now)
unfolding pop_next
pop_next-IsStrict s send_budget now w positive =
    let some_budget : (send_budget == 0) ≡ false = ground arith in
    rw some_budget (
      or_else-IsStrict send_budget now (pop_control (s.queues 0) s send_budget now)
        (pop_control-IsStrict send_budget now (s.queues 0) s w refl))
