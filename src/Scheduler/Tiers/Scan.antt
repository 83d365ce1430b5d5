-- ===== src/Scheduler/Tiers/Scan.antt =====
-- One turn of the round robin: the scan from the cursor, and the tier that it finds.
use gtp_rs.Base.{
  ℕ, zero, suc, ◌+◌, ◌-◌, ◌%◌, ◌≤◌, ◌<◌, ◌≡◌, ◌⊎◌, refl, sym, ap, ◌∙◌, subst, arith, leb, ◌==◌,
  ◌&&◌, Bool-cases, ==_iff, true, false, inl, inr, Option, none, some, List, [], ◌∷◌, length,
}
use gtp_rs.Scheduler.Item.{SchedulableItem, is_expired, size_bytes}
use gtp_rs.Scheduler.Tiers.{put, GameScheduler}
use gtp_rs.Scheduler.Tiers.Service.{discard, next_tier, serve, Pop}
use gtp_rs.Scheduler.Tiers.Invariant.{put_self}

-- The tier that is `i` places after the cursor `c`.
abbrev pub place : ℕ → ℕ → ℕ
place c i = 1 + (c - 1 + i) % 4

nil : (q : List SchedulableItem) → (length q == 0) ≡ true → q ≡ []
nil [] h = refl
nil (i ∷ q) h = absurd (ground (arith, h))

module _ (send_budget now : ℕ) where
  -- The head of a queue cannot be sent: it is not expired, and larger than the budget or the deficit.
  abbrev pub IsStuck : List SchedulableItem → ℕ → Type 0
  IsStuck [] deficit = Unit {0}
  IsStuck (item ∷ q) deficit =
      (is_expired item now ≡ false)
      × ((send_budget < size_bytes item) ⊎ (deficit < size_bytes item))

  abbrev pub StuckAt : GameScheduler → ℕ → Type 0
  StuckAt s t = IsStuck (s.queues t) (s.deficits t)

  pub StuckAt-nil : (s : GameScheduler) (t : ℕ) → s.queues t ≡ [] → StuckAt s t
  StuckAt-nil s t e = subst (λ q. IsStuck q (s.deficits t)) (sym e) tt

  -- The result of a scan from `step` to `end` places after the cursor.
  abbrev pub IsScan : GameScheduler → ℕ → ℕ → GameScheduler × Option ℕ → Type 0
  IsScan s step end (left, none) =
      (left.queues ≡ s.queues)
      × ((i : ℕ) → step ≤ i → i < end → s.queues (place s.drr_pointer i) ≡ [])
  IsScan s step end (left, some t) =
      (left.queues ≡ s.queues)
      × (left.drr_pointer ≡ s.drr_pointer)
      × ((u : ℕ) → StuckAt s u → StuckAt left u)
      × (j : ℕ) × (step ≤ j)
      × (j < end)
      × (t ≡ place s.drr_pointer j)
      × ((i : ℕ) → step ≤ i → i < j → s.queues (place s.drr_pointer i) ≡ [])

  pub next_tier-IsScan :
      (steps step end : ℕ) (s : GameScheduler)
      → step + steps ≡ end
      → IsScan s step end (next_tier steps step s)
  unfolding next_tier
  next_tier-IsScan zero step end s e = (refl, λ i low high. absurd (omega (arith, low, high, e)))
  next_tier-IsScan (suc steps) step end s e =
      let t = place s.drr_pointer step in
      elim (Bool-cases (length (s.queues t) == 0)) [
        | inr queued ↦ rw queued (
          refl,
          refl,
          (λ u h. h),
          step,
          omega arith,
          omega (arith, e),
          refl,
          λ i low high. absurd (omega (arith, low, high)),
        )
        | inl empty ↦ rw empty (
            further (next_tier steps (step + 1) _) (nil (s.queues t) empty) (
              next_tier-IsScan steps (step + 1) end
                (record s { deficits = put s.deficits t 0; accrued = put s.accrued t false })
                (omega (arith, e))))
      ]
    where
      here :
          (i : ℕ)
          → step ≤ i
          → s.queues (place s.drr_pointer step) ≡ []
          → (step + 1 ≤ i → s.queues (place s.drr_pointer i) ≡ [])
          → s.queues (place s.drr_pointer i) ≡ []
      here i low empty later = elim (Bool-cases (i == step)) [
        | inl same ↦ ap (λ k. s.queues (place s.drr_pointer k)) ((==_iff i step).0 same) ∙ empty
        | inr other ↦ later (ground arith)
      ]

      emptied :
          (u : ℕ)
          → s.queues (place s.drr_pointer step) ≡ []
          → StuckAt s u
          → IsStuck (s.queues u) (put s.deficits (place s.drr_pointer step) 0 u)
      emptied u empty h = elim (Bool-cases (u == place s.drr_pointer step)) [
        | inl same ↦
            subst (λ q. IsStuck q (put s.deficits (place s.drr_pointer step) 0 u))
              (sym (ap s.queues ((==_iff u (place s.drr_pointer step)).0 same) ∙ empty)) tt
        | inr other ↦ rw other h
      ]

      further :
          (p : GameScheduler × Option ℕ)
          → s.queues (place s.drr_pointer step) ≡ []
          → IsScan
              (record s {
                deficits = put s.deficits (place s.drr_pointer step) 0;
                accrued = put s.accrued (place s.drr_pointer step) false;
              })
              (step + 1)
              end
              p
          → IsScan s step end p
      further (left, none) empty (same, later) =
          (same, λ i low high. here i low empty (λ above. later i above high))
      further (left, some t) empty (same, cursor, keeps, j, j_low, j_high, at, later) = (
        same,
        cursor,
        (λ u h. keeps u (emptied u empty h)),
        j,
        omega (arith, j_low),
        j_high,
        at,
        λ i low high. here i low empty (λ above. later i above high),
      )

  -- A tier that was not served is stuck, and the others are as they were.
  abbrev pub IsUnserved : GameScheduler → ℕ → Pop → Type 0
  IsUnserved s t (left, some item) = Unit {0}
  IsUnserved s t (left, none) =
      StuckAt left t
      × (left.drr_pointer ≡ s.drr_pointer)
      × ((u : ℕ)
          → (u == t) ≡ false
          → (left.queues u ≡ s.queues u) × (left.deficits u ≡ s.deficits u))

  pub serve-IsUnserved :
      (q : List SchedulableItem) (s : GameScheduler) (t : ℕ)
      → s.queues t ≡ q
      → IsUnserved s t (serve q s t send_budget now)
  unfolding serve discard
  serve-IsUnserved [] s t e = (StuckAt-nil s t e, refl, λ u other. (refl, refl))
  serve-IsUnserved (front ∷ rest) s t e = elim (Bool-cases (is_expired front now)) [
    | inl expired ↦ rw expired (
        dropping (serve rest (discard s t front rest) t send_budget now)
          (serve-IsUnserved rest (discard s t front rest) t (put_self s.queues t rest)))
    | inr live ↦
        rw live
          (elim (Bool-cases
            (leb (size_bytes front) send_budget && leb (size_bytes front) (s.deficits t))) [
              | inl fits ↦ rw fits tt
              | inr large ↦ rw large (
                subst (λ l. IsStuck l (s.deficits t)) (sym e) (live, too_large large),
                refl,
                λ u other. (refl, refl),
              )
            ])
  ]
    where
      dropping : (p : Pop) → IsUnserved (discard s t front rest) t p → IsUnserved s t p
      dropping (left, some item) h = tt
      dropping (left, none) (stuck, cursor, others) =
          (stuck, cursor, λ u other. ((others u other).0 ∙ rw other refl, (others u other).1))

      too_large :
          (leb (size_bytes front) send_budget && leb (size_bytes front) (s.deficits t)) ≡ false
          → (send_budget < size_bytes front) ⊎ (s.deficits t < size_bytes front)
      too_large h = ground arith
