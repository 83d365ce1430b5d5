-- ===== src/Scheduler/Tiers/Progress.antt =====
-- When `pop_next` returns nothing, nothing can be sent: the four turns of the round robin see every
-- tier, wherever its cursor stands.
use gtp_rs.Base.{
  ℕ, zero, suc, ◌+◌, ◌-◌, ◌%◌, ◌≤◌, ◌<◌, ◌≡◌, refl, sym, ap, ◌∙◌, subst, arith, leb, ◌==◌,
  Bool-cases, ==_iff, false, inl, inr, Option, none, some,
}
use gtp_rs.Scheduler.Tiers.{Tiered, GameScheduler}
use gtp_rs.Scheduler.Tiers.Service.{
  pop_control, next_tier, accrue, serve, pass, at_tier, or_else, round_robin, pop_next, Pop,
}
use gtp_rs.Scheduler.Tiers.Invariant.{IsScheduler}
use gtp_rs.Scheduler.Tiers.Rounds.{
  IsFound, next_tier-IsFound, accrue-IsScheduler, accrue-queues, serve-IsScheduler,
  pass-IsScheduler, pop_control-IsScheduler,
}
use gtp_rs.Scheduler.Tiers.Scan.{
  place, IsStuck, StuckAt, StuckAt-nil, IsScan, next_tier-IsScan, IsUnserved, serve-IsUnserved,
}

place-reach : (c t : ℕ) → 1 ≤ c → c ≤ 4 → 1 ≤ t → t ≤ 4 → place c (3 - (c + 3 - t) % 4) ≡ t
place-reach c t c_low c_high t_low t_high = omega arith

place-last : (t : ℕ) → 1 ≤ t → t ≤ 4 → place (place t 1) 3 ≡ t
place-last t low high = omega arith

-- The places before the next cursor, seen from the last one: before it, or scanned since.
place-before :
    (c j k : ℕ)
    → 1 ≤ c
    → c ≤ 4
    → j < 4
    → k < 4
    → j < k
    → place (place (place c j) 1) (3 - k) ≡ place c (3 - (k - j - 1))
place-before c j k low high j_high k_high after = omega arith

place-scanned :
    (c j k : ℕ)
    → 1 ≤ c
    → c ≤ 4
    → j < 4
    → k ≤ j
    → place (place (place c j) 1) (3 - k) ≡ place c (j - k)
place-scanned c j k low high j_high before = omega arith

module _ (send_budget now : ℕ) where
  -- The `n` tiers before the cursor are stuck.
  abbrev AreBefore : GameScheduler → ℕ → Type 0
  AreBefore s n = (k : ℕ) → k < n → StuckAt send_budget now s (place s.drr_pointer (3 - k))

  abbrev pub AllStuck : GameScheduler → Type 0
  AllStuck s = (t : ℕ) → 1 ≤ t → t ≤ 4 → StuckAt send_budget now s t

  -- Nothing was sent because nothing can be.
  abbrev pub IsIdle : Pop → Type 0
  IsIdle (s, some item) = Unit {0}
  IsIdle (s, none) = AllStuck s

  AllStuck-AreBefore :
      (s : GameScheduler) → (1 ≤ s.drr_pointer) × (s.drr_pointer ≤ 4) → AreBefore s 4 → AllStuck s
  AllStuck-AreBefore s (low, high) before t t_low t_high =
      subst (StuckAt send_budget now s) (place-reach s.drr_pointer t low high t_low t_high)
        (before ((s.drr_pointer + 3 - t) % 4) (omega arith))

  accrue-others :
      (s : GameScheduler) (t u : ℕ) → (u == t) ≡ false → (accrue s t).deficits u ≡ s.deficits u
  unfolding accrue
  accrue-others s t u other = elim (Bool-cases (s.accrued t)) [
    | inl already ↦ rw already refl
    | inr due ↦ rw (due, other) refl
  ]

  accrue-drr_pointer : (s : GameScheduler) (t : ℕ) → (accrue s t).drr_pointer ≡ s.drr_pointer
  unfolding accrue
  accrue-drr_pointer s t = elim (Bool-cases (s.accrued t)) [
    | inl already ↦ rw already refl
    | inr due ↦ rw due refl
  ]

  -- What a tier that was tried and not served leaves stuck.
  unserved-StuckAt :
      (s left : GameScheduler) (t u : ℕ)
      → IsUnserved send_budget now (accrue s t) t (left, none)
      → StuckAt send_budget now s u
      → StuckAt send_budget now left u
  unserved-StuckAt s left t u (stuck, cursor, others) h = elim (Bool-cases (u == t)) [
    | inl same ↦ subst (StuckAt send_budget now left) (sym ((==_iff u t).0 same)) stuck
    | inr other ↦
        let (queue, deficit) = others u other in
        let queues : left.queues u ≡ s.queues u = queue ∙ ap (λ l. l u) (accrue-queues s t) in
        let deficits : left.deficits u ≡ s.deficits u = deficit ∙ accrue-others s t u other in
        subst (λ q. IsStuck send_budget now q (left.deficits u)) (sym queues)
          (subst (IsStuck send_budget now (s.queues u)) (sym deficits) h)
  ]

  -- One turn that serves nothing adds its tier to those before the cursor.
  pass-AreBefore :
      (s found left : GameScheduler) (t n : ℕ)
      → (1 ≤ s.drr_pointer) × (s.drr_pointer ≤ 4)
      → n < 4
      → AreBefore s n
      → IsScan send_budget now s 0 4 (found, some t)
      → IsUnserved send_budget now (accrue found t) t (left, none)
      → AreBefore (pass left t) (suc n)
  unfolding pass
  pass-AreBefore s found left t n (low, high) few before
        (same, cursor, keeps, j, j_low, j_high, at, scanned) unserved k below =
      subst (λ u. StuckAt send_budget now left (place (place u 1) (3 - k))) (sym at)
        (elim (Bool-cases (leb k j)) [
          | inr older ↦
              subst (StuckAt send_budget now left)
                (sym (
                  place-before s.drr_pointer j k low high j_high (omega (arith, below, few))
                    (ground arith)))
                (kept _ (before (k - j - 1) (ground (arith, below))))
          | inl recent ↦ elim (Bool-cases (k == 0)) [
            | inl now_tried ↦
                let none_back : j - k ≡ j = omega (arith, (==_iff k 0).0 now_tried) in
                subst (StuckAt send_budget now left)
                  (sym (
                    place-scanned s.drr_pointer j k low high j_high (ground arith)
                    ∙ ap (place s.drr_pointer) none_back
                    ∙ sym at))
                  unserved.0
            | inr earlier ↦
                subst (StuckAt send_budget now left)
                  (sym (place-scanned s.drr_pointer j k low high j_high (ground arith)))
                  (kept _ (
                    StuckAt-nil send_budget now s _ (scanned (j - k) (omega arith) (ground arith))))
          ]
        ])
    where
      kept : (u : ℕ) → StuckAt send_budget now s u → StuckAt send_budget now left u
      kept u h = unserved-StuckAt found left t u unserved (keeps u h)

  at_tier-IsIdle :
      {caps : Tiered ℕ} {limit : ℕ} (s : GameScheduler) (f : GameScheduler × Option ℕ)
      (turn : GameScheduler → ℕ → Pop)
      → (1 ≤ s.drr_pointer) × (s.drr_pointer ≤ 4)
      → IsScan send_budget now s 0 4 f
      → IsFound caps limit f
      → ((found : GameScheduler) (t : ℕ)
          → IsScan send_budget now s 0 4 (found, some t)
          → IsScheduler caps limit found
          → (1 ≤ t) × (t ≤ 4)
          → IsIdle (turn found t))
      → IsIdle (at_tier f turn)
  at_tier-IsIdle s (found, none) turn (low, high) (same, empty) w tries = λ t t_low t_high.
      StuckAt-nil send_budget now found t (
        ap (λ l. l t) same
        ∙ ap s.queues (sym (place-reach s.drr_pointer t low high t_low t_high))
        ∙ empty (3 - (s.drr_pointer + 3 - t) % 4) (omega arith) (omega arith))
  at_tier-IsIdle s (found, some t) turn range scan (w, low, high) tries =
      tries found t scan w (low, high)

  or_else-IsIdle :
      {caps : Tiered ℕ} {limit : ℕ} (s : GameScheduler) (t : ℕ) (p : Pop)
      (next : GameScheduler → Pop)
      → IsScheduler caps limit p.0
      → IsUnserved send_budget now s t p
      → ((left : GameScheduler)
          → IsScheduler caps limit left
          → IsUnserved send_budget now s t (left, none)
          → IsIdle (next left))
      → IsIdle (or_else p next)
  or_else-IsIdle s t (left, none) next w h further = further left w h
  or_else-IsIdle s t (left, some item) next w h further = tt

  round_robin-IsIdle :
      {caps : Tiered ℕ} {limit : ℕ} (turns n : ℕ) (s : GameScheduler)
      → n + turns ≡ 4
      → IsScheduler caps limit s
      → AreBefore s n
      → IsIdle (round_robin turns s send_budget now)
  unfolding round_robin
  round_robin-IsIdle zero n s count w before =
      AllStuck-AreBefore s w.cursor (λ k below. before k (omega (arith, below, count)))
  round_robin-IsIdle (suc turns) n s count w before =
      at_tier-IsIdle s (next_tier 4 0 s) _ w.cursor
        (next_tier-IsScan send_budget now 4 0 4 s (omega arith)) (next_tier-IsFound 4 0 s w)
        (λ found t scan k range.
          let ready = accrue-IsScheduler found t k in
          let same = ap (λ q. q t) (accrue-queues found t) in
          or_else-IsIdle (accrue found t) t
            (serve (found.queues t) (accrue found t) t send_budget now) _
            (serve-IsScheduler (found.queues t) (accrue found t) t send_budget now ready same range)
            (serve-IsUnserved send_budget now (found.queues t) (accrue found t) t same)
            (λ left kept unserved.
              round_robin-IsIdle turns (suc n) (pass left t) (omega (arith, count))
                (pass-IsScheduler left t kept)
                (pass-AreBefore s found left t n w.cursor (omega (arith, count)) before scan
                  unserved)))

  control-IsIdle :
      {caps : Tiered ℕ} {limit : ℕ} (p : Pop)
      → IsScheduler caps limit p.0
      → IsIdle (or_else p (λ control. round_robin 4 control send_budget now))
  control-IsIdle (s, none) w =
      round_robin-IsIdle 4 0 s (omega arith) w (λ k below. absurd (omega (arith, below)))
  control-IsIdle (s, some item) w = tt

-- When a pop with a budget above 0 returns nothing, then after it every tier of the round robin is
-- empty or has at its head an item that is not expired and is larger than the budget or than the
-- deficit of the tier.
pub pop_next-IsIdle :
    {caps : Tiered ℕ} {limit : ℕ} (s : GameScheduler) (send_budget now : ℕ)
    → IsScheduler caps limit s
    → 0 < send_budget
    → IsIdle send_budget now (pop_next s send_budget now)
unfolding pop_next
pop_next-IsIdle s send_budget now w positive =
    let some_budget : (send_budget == 0) ≡ false = ground arith in
    rw some_budget (
      control-IsIdle send_budget now (pop_control (s.queues 0) s send_budget now)
        (pop_control-IsScheduler (s.queues 0) s send_budget now w refl))
