-- ===== src/Scheduler/Tiers/Invariant.antt =====
-- What holds of the tiers: counters in step with the queues, the caps, and the cursor of the round
-- robin in its range.
use gtp_rs.Base.{
  ℕ, suc, ◌+◌, ◌*◌, ◌≤◌, ◌≡◌, refl, sym, ap, ◌∙◌, subst, arith, ◌==◌, Bool, Bool-cases, ==_iff,
  true, inl, inr, List, [], ◌∷◌, ◌++◌, length, length-append,
}
use gtp_rs.Scheduler.Item.{SchedulableItem, size_bytes}
use gtp_rs.Scheduler.Tiers.{
  tier_index, tier_quantum, put, Tiered, GameScheduler, retain, removed_bytes, removed_items,
  drop_items, push_back, push_front,
}
use gtp_rs.Scheduler.Tiers.Service.{discard}

abbrev pub total_size : List SchedulableItem → ℕ
total_size [] = 0
total_size (i ∷ q) = size_bytes i + total_size q

-- The items of a queue belong to its tier.
abbrev pub AreOf : ℕ → List SchedulableItem → Type 0
AreOf t [] = Unit {0}
AreOf t (i ∷ q) = (tier_index i.priority ≡ t) × AreOf t q

-- One tier: its queue with the two counters, under the caps.
pub record IsTier (max_bytes max_items t : ℕ) (q : List SchedulableItem) (bytes items : ℕ)
    : Type 0 where
  pub weighed : bytes ≡ total_size q
  pub counted : items ≡ length q
  pub light : bytes ≤ max_bytes
  pub few : items ≤ max_items
  pub placed : AreOf t q

pub record IsScheduler (caps : Tiered ℕ) (limit : ℕ) (s : GameScheduler) : Type 0 where
  pub tiers : (t : ℕ) → IsTier (caps t) limit t (s.queues t) (s.queue_bytes t) (s.queue_items t)
  pub same_caps : (t : ℕ) → s.max_queue_bytes_per_tier t ≡ caps t
  pub same_limit : s.max_queue_items_per_tier ≡ limit
  pub capped : (t : ℕ) → s.deficits t ≤ tier_quantum t * 4
  pub cursor : (1 ≤ s.drr_pointer) × (s.drr_pointer ≤ 4)

pub put-all {ℓ κ} :
    {A : Type ℓ} (P : ℕ → A → Type κ) (a : Tiered A) (i : ℕ) (v : A)
    → P i v
    → ((j : ℕ) → P j (a j))
    → (j : ℕ) → P j (put a i v j)
put-all P a i v here others j = elim (Bool-cases (j == i)) [
  | inl same ↦ rw same (subst (λ k. P k v) (sym ((==_iff j i).0 same)) here)
  | inr other ↦ rw other (others j)
]

-- The three arrays of a tier, assigned together.
pub put-IsTier :
    {caps : Tiered ℕ} {limit : ℕ} (s : GameScheduler) (i : ℕ) (q : List SchedulableItem)
    (bytes items : ℕ)
    → IsTier (caps i) limit i q bytes items
    → IsScheduler caps limit s
    → (j : ℕ)
    → IsTier
        (caps j)
        limit
        j
        (put s.queues i q j)
        (put s.queue_bytes i bytes j)
        (put s.queue_items i items j)
put-IsTier {caps = caps} {limit = limit} s i q bytes items here w j = elim (Bool-cases (j == i)) [
  | inl same ↦
      rw same (subst (λ k. IsTier (caps k) limit k q bytes items) (sym ((==_iff j i).0 same)) here)
  | inr other ↦ rw other (w.tiers j)
]

retain-total :
    (gone : SchedulableItem → Bool) (q : List SchedulableItem)
    → (total_size (retain gone q) + removed_bytes gone q ≡ total_size q)
      × (length (retain gone q) + removed_items gone q ≡ length q)
retain-total gone [] = (refl, refl)
retain-total gone (i ∷ q) =
    let (bytes, items) = retain-total gone q in
    elim (Bool-cases (gone i)) [
      | inl out ↦ rw out (omega (arith, bytes), omega (arith, items))
      | inr stays ↦ rw stays (omega (arith, bytes), omega (arith, items))
    ]

AreOf-retain :
    (gone : SchedulableItem → Bool) (t : ℕ) (q : List SchedulableItem)
    → AreOf t q
    → AreOf t (retain gone q)
AreOf-retain gone t [] h = h
AreOf-retain gone t (i ∷ q) h = elim (Bool-cases (gone i)) [
  | inl out ↦ rw out (AreOf-retain gone t q h.1)
  | inr stays ↦ rw stays (h.0, AreOf-retain gone t q h.1)
]

AreOf-snoc :
    (t : ℕ) (q : List SchedulableItem) (i : SchedulableItem)
    → AreOf t q
    → tier_index i.priority ≡ t
    → AreOf t (q ++ (i ∷ []))
AreOf-snoc t [] i h e = (e, tt)
AreOf-snoc t (j ∷ q) i h e = (h.0, AreOf-snoc t q i h.1 e)

total_size-snoc :
    (q : List SchedulableItem) (i : SchedulableItem)
    → total_size (q ++ (i ∷ [])) ≡ total_size q + size_bytes i
total_size-snoc [] i = omega arith
total_size-snoc (j ∷ q) i = omega (arith, total_size-snoc q i)

pub drop_items-IsScheduler :
    {caps : Tiered ℕ} {limit : ℕ} (s : GameScheduler) (t : ℕ) (gone : SchedulableItem → Bool)
    → IsScheduler caps limit s
    → IsScheduler caps limit (drop_items s t gone)
unfolding drop_items
drop_items-IsScheduler s t gone w =
    let (bytes, items) = retain-total gone (s.queues t) in
    let tier = w.tiers t in
    record {
      tiers =
          put-IsTier s t _ _ _
            (record {
              weighed = omega (arith, bytes, tier.weighed);
              counted = omega (arith, items, tier.counted);
              light = omega (arith, tier.light);
              few = omega (arith, tier.few);
              placed = AreOf-retain gone t (s.queues t) tier.placed;
            })
            w;
      capped = w.capped;
      same_caps = w.same_caps;
      same_limit = w.same_limit;
      cursor = w.cursor;
    }

-- One more item, where the caps have room.
module _ {caps : Tiered ℕ} {limit : ℕ} (s : GameScheduler) (item : SchedulableItem)
    (w : IsScheduler caps limit s)
    (light : s.queue_bytes (tier_index item.priority) + size_bytes item
      ≤ s.max_queue_bytes_per_tier (tier_index item.priority))
    (few : s.queue_items (tier_index item.priority) + 1 ≤ s.max_queue_items_per_tier) where
  pub push_back-IsScheduler : IsScheduler caps limit (push_back s (tier_index item.priority) item)
  unfolding push_back
  push_back-IsScheduler =
      let t = tier_index item.priority in
      let tier = w.tiers t in
      record {
        tiers =
            put-IsTier s t _ _ _
              (record {
                weighed = omega (arith, total_size-snoc (s.queues t) item, tier.weighed);
                counted = omega (arith, length-append (s.queues t) (item ∷ []), tier.counted);
                light = omega (arith, light, w.same_caps t);
                few = omega (arith, few, w.same_limit);
                placed = AreOf-snoc t (s.queues t) item tier.placed refl;
              })
              w;
        capped = w.capped;
        same_caps = w.same_caps;
        same_limit = w.same_limit;
        cursor = w.cursor;
      }

  pub push_front-IsScheduler : IsScheduler caps limit (push_front s (tier_index item.priority) item)
  unfolding push_front
  push_front-IsScheduler =
      let t = tier_index item.priority in
      let tier = w.tiers t in
      record {
        tiers =
            put-IsTier s t _ _ _
              (record {
                weighed = omega (arith, tier.weighed);
                counted = omega (arith, tier.counted);
                light = omega (arith, light, w.same_caps t);
                few = omega (arith, few, w.same_limit);
                placed = (refl, tier.placed);
              })
              w;
        capped = w.capped;
        same_caps = w.same_caps;
        same_limit = w.same_limit;
        cursor = w.cursor;
      }

pub put_self {ℓ} : {A : Type ℓ} (a : Tiered A) (i : ℕ) (v : A) → put a i v i ≡ v
put_self a i v = let same : (i == i) ≡ true = ground arith in rw same refl

pub discard-IsScheduler :
    {caps : Tiered ℕ} {limit : ℕ} (s : GameScheduler) (t : ℕ) (item : SchedulableItem)
    (rest : List SchedulableItem)
    → IsScheduler caps limit s
    → s.queues t ≡ item ∷ rest
    → IsScheduler caps limit (discard s t item rest) × ((discard s t item rest).queues t ≡ rest)
unfolding discard
discard-IsScheduler s t item rest w head =
    let tier = w.tiers t in
    let weight : s.queue_bytes t ≡ size_bytes item + total_size rest =
      tier.weighed ∙ ap total_size head in
    let count : s.queue_items t ≡ suc (length rest) = tier.counted ∙ ap length head in
    let own : AreOf t (item ∷ rest) = subst (AreOf t) head tier.placed in
    (
      record {
        tiers =
            put-IsTier s t _ _ _
              (record {
                weighed = omega (arith, weight);
                counted = omega (arith, count);
                light = omega (arith, tier.light);
                few = omega (arith, tier.few);
                placed = own.1;
              })
              w;
        capped = w.capped;
        same_caps = w.same_caps;
        same_limit = w.same_limit;
        cursor = w.cursor;
      },
      put_self s.queues t rest,
    )
