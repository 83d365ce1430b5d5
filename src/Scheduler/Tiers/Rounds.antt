-- ===== src/Scheduler/Tiers/Rounds.antt =====
-- A pop keeps the invariant of the tiers.
use gtp_rs.Base.{
  ℕ, zero, suc, ◌+◌, ◌-◌, ◌*◌, ◌%◌, ◌≤◌, ◌<◌, ◌≡◌, refl, ap, arith, leb, ◌==◌, ◌&&◌, Bool-cases,
  inl, inr, Option, none, some, List, [], ◌∷◌, length,
}
use native.Mathlib.Nat.{mod-lt}
use gtp_rs.Scheduler.Item.{SchedulableItem, is_expired, size_bytes}
use gtp_rs.Scheduler.Tiers.{tier_quantum, Tiered, GameScheduler}
use gtp_rs.Scheduler.Tiers.Service.{
  discard, pop_control, next_tier, accrue, serve, pass, at_tier, or_else, round_robin, pop_next,
  Pop,
}
use gtp_rs.Scheduler.Tiers.Invariant.{IsScheduler, put-all, discard-IsScheduler}

pub pop_control-IsScheduler :
    {caps : Tiered ℕ} {limit : ℕ} (q : List SchedulableItem) (s : GameScheduler)
    (send_budget now : ℕ)
    → IsScheduler caps limit s
    → s.queues 0 ≡ q
    → IsScheduler caps limit (pop_control q s send_budget now).0
unfolding pop_control
pop_control-IsScheduler [] s send_budget now w e = w
pop_control-IsScheduler (item ∷ rest) s send_budget now w e =
    let (left, tail) = discard-IsScheduler s 0 item rest w e in
    elim (Bool-cases (is_expired item now)) [
      | inl expired ↦
          rw expired
            (pop_control-IsScheduler rest (discard s 0 item rest) send_budget now left tail)
      | inr live ↦ rw live (elim (Bool-cases (leb (size_bytes item) send_budget)) [
        | inl fits ↦ rw fits left
        | inr large ↦ rw large w
      ])
    ]

pub serve-IsScheduler :
    {caps : Tiered ℕ} {limit : ℕ} (q : List SchedulableItem) (s : GameScheduler)
    (t send_budget now : ℕ)
    → IsScheduler caps limit s
    → s.queues t ≡ q
    → (1 ≤ t) × (t ≤ 4)
    → IsScheduler caps limit (serve q s t send_budget now).0
unfolding serve
serve-IsScheduler [] s t send_budget now w e range = w
serve-IsScheduler (front ∷ rest) s t send_budget now w e range =
    let (left, tail) = discard-IsScheduler s t front rest w e in
    elim (Bool-cases (is_expired front now)) [
      | inl expired ↦
          rw expired
            (serve-IsScheduler rest (discard s t front rest) t send_budget now left tail range)
      | inr live ↦
          rw live
            (elim (Bool-cases
              (leb (size_bytes front) send_budget && leb (size_bytes front) (s.deficits t))) [
                | inl fits ↦ rw fits (record {
                  tiers = left.tiers;
                  capped =
                      put-all (λ j d. d ≤ tier_quantum j * 4) s.deficits t _
                        (omega (arith, w.capped t)) w.capped;
                  same_caps = left.same_caps;
                  same_limit = left.same_limit;
                  cursor = range;
                })
                | inr large ↦ rw large w
              ])
    ]

-- An answer of the scan: a tier of the round robin, if there is one.
abbrev pub IsFound : Tiered ℕ → ℕ → GameScheduler × Option ℕ → Type 0
IsFound caps limit (s, none) = IsScheduler caps limit s
IsFound caps limit (s, some t) = IsScheduler caps limit s × (1 ≤ t) × (t ≤ 4)

four : (n : ℕ) → n % 4 < 4
four n = mod-lt n (omega arith)

pub in_round : (n : ℕ) → (1 ≤ 1 + n % 4) × (1 + n % 4 ≤ 4)
in_round n = (omega arith, omega (arith, four n))

pub next_tier-IsFound :
    {caps : Tiered ℕ} {limit : ℕ} (steps step : ℕ) (s : GameScheduler)
    → IsScheduler caps limit s
    → IsFound caps limit (next_tier steps step s)
unfolding next_tier
next_tier-IsFound zero step s w = w
next_tier-IsFound (suc steps) step s w =
    let t = 1 + (s.drr_pointer - 1 + step) % 4 in
    elim (Bool-cases (length (s.queues t) == 0)) [
      | inl empty ↦ rw empty (
          next_tier-IsFound steps (step + 1) _ (record {
            tiers = w.tiers;
            capped = put-all (λ j d. d ≤ tier_quantum j * 4) s.deficits t 0 (omega arith) w.capped;
            same_caps = w.same_caps;
            same_limit = w.same_limit;
            cursor = w.cursor;
          }))
      | inr queued ↦
          let (low, high) = in_round (s.drr_pointer - 1 + step) in rw queued (w, low, high)
    ]

pub accrue-IsScheduler :
    {caps : Tiered ℕ} {limit : ℕ} (s : GameScheduler) (t : ℕ)
    → IsScheduler caps limit s
    → IsScheduler caps limit (accrue s t)
unfolding accrue
accrue-IsScheduler s t w = elim (Bool-cases (s.accrued t)) [
  | inl already ↦ rw already w
  | inr due ↦ rw due (record {
    tiers = w.tiers;
    capped = put-all (λ j d. d ≤ tier_quantum j * 4) s.deficits t _ (omega arith) w.capped;
    same_caps = w.same_caps;
    same_limit = w.same_limit;
    cursor = w.cursor;
  })
]

pub accrue-queues : (s : GameScheduler) (t : ℕ) → (accrue s t).queues ≡ s.queues
unfolding accrue
accrue-queues s t = elim (Bool-cases (s.accrued t)) [
  | inl already ↦ rw already refl
  | inr due ↦ rw due refl
]

pub pass-IsScheduler :
    {caps : Tiered ℕ} {limit : ℕ} (s : GameScheduler) (t : ℕ)
    → IsScheduler caps limit s
    → IsScheduler caps limit (pass s t)
unfolding pass
pass-IsScheduler s t w = record {
  tiers = w.tiers;
  capped = w.capped;
  same_caps = w.same_caps;
  same_limit = w.same_limit;
  cursor = in_round (t - 1 + 1);
}

or_else-IsScheduler :
    {caps : Tiered ℕ} {limit : ℕ} (p : Pop) (next : GameScheduler → Pop)
    → IsScheduler caps limit p.0
    → ((s : GameScheduler) → IsScheduler caps limit s → IsScheduler caps limit (next s).0)
    → IsScheduler caps limit (or_else p next).0
or_else-IsScheduler (s, none) next w keeps = keeps s w
or_else-IsScheduler (s, some item) next w keeps = w

at_tier-IsScheduler :
    {caps : Tiered ℕ} {limit : ℕ} (f : GameScheduler × Option ℕ) (turn : GameScheduler → ℕ → Pop)
    → IsFound caps limit f
    → ((s : GameScheduler) (t : ℕ)
        → IsScheduler caps limit s
        → (1 ≤ t) × (t ≤ 4)
        → IsScheduler caps limit (turn s t).0)
    → IsScheduler caps limit (at_tier f turn).0
at_tier-IsScheduler (s, none) turn w keeps = w
at_tier-IsScheduler (s, some t) turn (w, low, high) keeps = keeps s t w (low, high)

round_robin-IsScheduler :
    {caps : Tiered ℕ} {limit : ℕ} (turns : ℕ) (s : GameScheduler) (send_budget now : ℕ)
    → IsScheduler caps limit s
    → IsScheduler caps limit (round_robin turns s send_budget now).0
unfolding round_robin
round_robin-IsScheduler zero s send_budget now w = w
round_robin-IsScheduler (suc turns) s send_budget now w =
    at_tier-IsScheduler (next_tier 4 0 s) _ (next_tier-IsFound 4 0 s w) (λ found t k range.
      or_else-IsScheduler _ _
        (serve-IsScheduler (found.queues t) (accrue found t) t send_budget now
          (accrue-IsScheduler found t k) (ap (λ q. q t) (accrue-queues found t)) range)
        (λ served kept.
          round_robin-IsScheduler turns (pass served t) send_budget now
            (pass-IsScheduler served t kept)))

pub pop_next-IsScheduler :
    {caps : Tiered ℕ} {limit : ℕ} (s : GameScheduler) (send_budget now : ℕ)
    → IsScheduler caps limit s
    → IsScheduler caps limit (pop_next s send_budget now).0
unfolding pop_next
pop_next-IsScheduler s send_budget now w = elim (Bool-cases (send_budget == 0)) [
  | inl nothing ↦ rw nothing w
  | inr positive ↦ rw positive (
      or_else-IsScheduler _ _ (pop_control-IsScheduler (s.queues 0) s send_budget now w refl)
        (λ control kept. round_robin-IsScheduler 4 control send_budget now kept))
]
