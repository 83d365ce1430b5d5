-- ===== src/Scheduler/Tiers/Popping.antt =====
-- What `pop_next` takes out of the queues.
use gtp_rs.Base.{
  ℕ, zero, suc, ◌+◌, ◌-◌, ◌%◌, ◌≤◌, ◌≡◌, refl, sym, ap, ◌∙◌, subst, arith, leb, ◌==◌, ◌&&◌,
  Bool-cases, ==_iff, true, false, inl, inr, Option, none, some, List, [], ◌∷◌, ◌++◌, length,
  append_assoc,
}
use gtp_rs.Scheduler.Item.{SchedulableItem, is_expired, size_bytes}
use gtp_rs.Scheduler.Tiers.{tier_index, put, Tiered, GameScheduler}
use gtp_rs.Scheduler.Tiers.Service.{
  discard, pop_control, next_tier, accrue, serve, pass, at_tier, or_else, round_robin, pop_next,
  Pop,
}
use gtp_rs.Scheduler.Tiers.Invariant.{AreOf, IsScheduler, put-all, put_self, discard-IsScheduler}
use gtp_rs.Scheduler.Tiers.Rounds.{
  IsFound, pop_control-IsScheduler, serve-IsScheduler, next_tier-IsFound, accrue-IsScheduler,
  accrue-queues, pass-IsScheduler,
}

abbrev pub AreExpired : ℕ → List SchedulableItem → Type 0
AreExpired now [] = Unit {0}
AreExpired now (i ∷ q) = (is_expired i now ≡ true) × AreExpired now q

-- The second queue is the first without some expired items at its head.
abbrev pub Drops : ℕ → List SchedulableItem → List SchedulableItem → Type 0
Drops now q left = (gone : List SchedulableItem) × (q ≡ gone ++ left) × AreExpired now gone

abbrev pub DropsAll : ℕ → Tiered (List SchedulableItem) → Tiered (List SchedulableItem) → Type 0
DropsAll now q left = (t : ℕ) → Drops now (q t) (left t)

AreExpired-append :
    (now : ℕ) (p q : List SchedulableItem)
    → AreExpired now p
    → AreExpired now q
    → AreExpired now (p ++ q)
AreExpired-append now [] q h g = g
AreExpired-append now (i ∷ p) q h g = (h.0, AreExpired-append now p q h.1 g)

Drops-refl : (now : ℕ) (q : List SchedulableItem) → Drops now q q
Drops-refl now q = ([], refl, tt)

Drops-trans :
    (now : ℕ) (p q r : List SchedulableItem) → Drops now p q → Drops now q r → Drops now p r
Drops-trans now p q r (a, e, h) (b, f, g) =
    (a ++ b, e ∙ ap (λ l. a ++ l) f ∙ sym (append_assoc a b r), AreExpired-append now a b h g)

-- The queues with an item put back at the head of its own.
abbrev pub with_front :
    Tiered (List SchedulableItem) → SchedulableItem → Tiered (List SchedulableItem)
with_front q item = put q (tier_index item.priority) (item ∷ q (tier_index item.priority))

-- What a pop may do to the queues `q`: some expired items at the heads are gone, and the item popped.
abbrev pub IsPop : ℕ → ℕ → Tiered (List SchedulableItem) → Pop → Type 0
IsPop send_budget now q (s, none) = DropsAll now q s.queues
IsPop send_budget now q (s, some item) =
    DropsAll now q (with_front s.queues item)
    × (is_expired item now ≡ false)
    × (size_bytes item ≤ send_budget)

DropsAll-IsPop :
    (send_budget now : ℕ) (q left : Tiered (List SchedulableItem)) (p : Pop)
    → DropsAll now q left
    → IsPop send_budget now left p
    → IsPop send_budget now q p
DropsAll-IsPop send_budget now q left (s, none) h g = λ t. Drops-trans now _ _ _ (h t) (g t)
DropsAll-IsPop send_budget now q left (s, some item) h (g, live, fits) =
    ((λ t. Drops-trans now _ _ _ (h t) (g t)), live, fits)

-- An expired item at the head of a queue goes.
discard-DropsAll :
    (s : GameScheduler) (t now : ℕ) (item : SchedulableItem) (rest : List SchedulableItem)
    → s.queues t ≡ item ∷ rest
    → is_expired item now ≡ true
    → DropsAll now s.queues (discard s t item rest).queues
unfolding discard
discard-DropsAll s t now item rest head expired =
    put-all (λ j left. Drops now (s.queues j) left) s.queues t rest (item ∷ [], head, (expired, tt))
      (λ j. Drops-refl now (s.queues j))

-- An item at the head of its queue, taken, and put back.
discard-with_front :
    (s : GameScheduler) (now : ℕ) (item : SchedulableItem) (rest : List SchedulableItem)
    → s.queues (tier_index item.priority) ≡ item ∷ rest
    → DropsAll now s.queues (with_front (put s.queues (tier_index item.priority) rest) item)
discard-with_front s now item rest head j = elim (Bool-cases (j == tier_index item.priority)) [
  | inl same ↦
      let here : s.queues j ≡ item ∷ rest = ap s.queues ((==_iff j _).0 same) ∙ head in
      rw (same, put_self s.queues (tier_index item.priority) rest) ([], here, tt)
  | inr other ↦ rw other (Drops-refl now (s.queues j))
]

pub next_tier-queues :
    (steps step : ℕ) (s : GameScheduler) → (next_tier steps step s).0.queues ≡ s.queues
unfolding next_tier
next_tier-queues zero step s = refl
next_tier-queues (suc steps) step s =
    elim (Bool-cases (length (s.queues (1 + (s.drr_pointer - 1 + step) % 4)) == 0)) [
      | inl empty ↦ rw empty (next_tier-queues steps (step + 1) _)
      | inr queued ↦ rw queued refl
    ]

-- The loops, from a state in which every queue holds items of its own tier.
module _ {caps : Tiered ℕ} {limit : ℕ} (send_budget now : ℕ) where
  taken-IsPop :
      (s : GameScheduler) (t : ℕ) (item : SchedulableItem) (rest : List SchedulableItem)
      → IsScheduler caps limit s
      → s.queues t ≡ item ∷ rest
      → DropsAll now s.queues (with_front (put s.queues t rest) item)
  taken-IsPop s t item rest w head =
      let own : AreOf t (item ∷ rest) = subst (AreOf t) head (w.tiers t).placed in
      subst (λ k. DropsAll now s.queues (with_front (put s.queues k rest) item)) own.0
        (discard-with_front s now item rest (ap s.queues own.0 ∙ head))

  pop_control-IsPop :
      (q : List SchedulableItem) (s : GameScheduler)
      → IsScheduler caps limit s
      → s.queues 0 ≡ q
      → IsPop send_budget now s.queues (pop_control q s send_budget now)
  unfolding pop_control discard
  pop_control-IsPop [] s w e = λ t. Drops-refl now (s.queues t)
  pop_control-IsPop (item ∷ rest) s w e =
      let (left, tail) = discard-IsScheduler s 0 item rest w e in
      elim (Bool-cases (is_expired item now)) [
        | inl expired ↦ rw expired (
            DropsAll-IsPop send_budget now s.queues _
              (pop_control rest (discard s 0 item rest) send_budget now)
              (discard-DropsAll s 0 now item rest e expired)
              (pop_control-IsPop rest (discard s 0 item rest) left tail))
        | inr live ↦ rw live (elim (Bool-cases (leb (size_bytes item) send_budget)) [
          | inl fits ↦ rw fits (taken-IsPop s 0 item rest w e, live, ground arith)
          | inr large ↦ rw large (λ t. Drops-refl now (s.queues t))
        ])
      ]

  serve-IsPop :
      (q : List SchedulableItem) (s : GameScheduler) (t : ℕ)
      → IsScheduler caps limit s
      → s.queues t ≡ q
      → IsPop send_budget now s.queues (serve q s t send_budget now)
  unfolding serve discard
  serve-IsPop [] s t w e = λ j. Drops-refl now (s.queues j)
  serve-IsPop (front ∷ rest) s t w e =
      let (left, tail) = discard-IsScheduler s t front rest w e in
      elim (Bool-cases (is_expired front now)) [
        | inl expired ↦ rw expired (
            DropsAll-IsPop send_budget now s.queues _
              (serve rest (discard s t front rest) t send_budget now)
              (discard-DropsAll s t now front rest e expired)
              (serve-IsPop rest (discard s t front rest) t left tail))
        | inr live ↦
            rw live
              (elim (Bool-cases
                (leb (size_bytes front) send_budget && leb (size_bytes front) (s.deficits t))) [
                  | inl fits ↦ rw fits (taken-IsPop s t front rest w e, live, ground arith)
                  | inr large ↦ rw large (λ j. Drops-refl now (s.queues j))
                ])
      ]

  or_else-IsPop :
      (q : Tiered (List SchedulableItem)) (p : Pop) (next : GameScheduler → Pop)
      → IsScheduler caps limit p.0
      → IsPop send_budget now q p
      → ((s : GameScheduler) → IsScheduler caps limit s → IsPop send_budget now s.queues (next s))
      → IsPop send_budget now q (or_else p next)
  or_else-IsPop q (s, none) next w h keeps =
      DropsAll-IsPop send_budget now q s.queues (next s) h (keeps s w)
  or_else-IsPop q (s, some item) next w h keeps = h

  at_tier-IsPop :
      (q : Tiered (List SchedulableItem)) (f : GameScheduler × Option ℕ)
      (turn : GameScheduler → ℕ → Pop)
      → IsFound caps limit f
      → f.0.queues ≡ q
      → ((s : GameScheduler) (t : ℕ)
          → IsScheduler caps limit s
          → (1 ≤ t) × (t ≤ 4)
          → IsPop send_budget now s.queues (turn s t))
      → IsPop send_budget now q (at_tier f turn)
  at_tier-IsPop q (s, none) turn w e keeps =
      λ t. subst (λ l. Drops now (l t) (s.queues t)) e (Drops-refl now (s.queues t))
  at_tier-IsPop q (s, some t) turn (w, low, high) e keeps =
      subst (λ l. IsPop send_budget now l (turn s t)) e (keeps s t w (low, high))

  round_robin-IsPop :
      (turns : ℕ) (s : GameScheduler)
      → IsScheduler caps limit s
      → IsPop send_budget now s.queues (round_robin turns s send_budget now)
  unfolding round_robin pass
  round_robin-IsPop zero s w = λ t. Drops-refl now (s.queues t)
  round_robin-IsPop (suc turns) s w =
      at_tier-IsPop s.queues (next_tier 4 0 s) _ (next_tier-IsFound 4 0 s w)
        (next_tier-queues 4 0 s)
        (λ found t k range.
          let ready = accrue-IsScheduler found t k in
          let same = ap (λ l. l t) (accrue-queues found t) in
          let next : GameScheduler → Pop =
            λ served. round_robin turns (pass served t) send_budget now in
          let p = serve (found.queues t) (accrue found t) t send_budget now in
          subst (λ l. IsPop send_budget now l (or_else p next)) (accrue-queues found t)
            (or_else-IsPop (accrue found t).queues p next
              (serve-IsScheduler (found.queues t) (accrue found t) t send_budget now ready same
                range)
              (serve-IsPop (found.queues t) (accrue found t) t ready same)
              (λ served kept.
                round_robin-IsPop turns (pass served t) (pass-IsScheduler served t kept))))

-- A pop takes nothing out of the queues but the item that it returns, which is not expired, fits the
-- budget and was the first of its tier's queue after items that were expired, and such expired items
-- at the heads of the queues; the order of what is left stays.
pub pop_next-IsPop :
    {caps : Tiered ℕ} {limit : ℕ} (s : GameScheduler) (send_budget now : ℕ)
    → IsScheduler caps limit s
    → IsPop send_budget now s.queues (pop_next s send_budget now)
unfolding pop_next
pop_next-IsPop s send_budget now w = elim (Bool-cases (send_budget == 0)) [
  | inl nothing ↦ rw nothing (λ t. Drops-refl now (s.queues t))
  | inr positive ↦ rw positive (
      or_else-IsPop send_budget now s.queues (pop_control (s.queues 0) s send_budget now)
        (λ control. round_robin 4 control send_budget now)
        (pop_control-IsScheduler (s.queues 0) s send_budget now w refl)
        (pop_control-IsPop send_budget now (s.queues 0) s w refl)
        (λ control kept. round_robin-IsPop send_budget now 4 control kept))
]
