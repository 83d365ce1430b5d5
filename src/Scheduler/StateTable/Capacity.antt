-- ===== src/Scheduler/StateTable/Capacity.antt =====
-- The keys of the map are the keys of the queue, each once, and no more than the capacity.
use gtp_rs.Base.{
  ℕ, suc, max, ◌≤◌, ◌≡◌, refl, sym, ap, ◌∙◌, subst, arith, inl, inr, Bool-cases, lt_or_ge, none,
  Option-cases, List, [], ◌∷◌, ◌++◌, length, length-append, contains, IsDistinct, IsDistinct-snoc,
  map_get, map_put, map_remove, map_keys, length-map_keys, map_get-absent, map_keys-put_absent,
  map_keys-put_present,
}
use gtp_rs.Types.Serial.{StateKey, to_u48}
use gtp_rs.Scheduler.StateTable.{
  StateTable, Entry, with_capacity, evict_loop, insert_new, is_newer, update,
}

pub record IsTable (t : StateTable) : Type 0 where
  pub same_keys : map_keys t.entries ≡ t.order
  pub distinct : IsDistinct t.order
  pub bounded : length t.order ≤ t.capacity
  pub positive : 1 ≤ t.capacity

pub with_capacity-IsTable : (c : ℕ) → IsTable (with_capacity c)
unfolding with_capacity
with_capacity-IsTable c = record {
  same_keys = refl;
  distinct = tt;
  bounded = omega arith;
  positive = omega arith;
}

pub evict_stop :
    (capacity : ℕ) (ks : List ℕ) (entries : List (ℕ × Entry))
    → length ks ≤ capacity
    → evict_loop capacity ks entries ≡ (ks, entries)
evict_stop capacity [] entries l = refl
evict_stop capacity (k ∷ ks) entries l = ground arith

-- One key over the capacity: exactly the oldest goes, from both.
pub one_over :
    (capacity k : ℕ) (ks : List ℕ) (entries : List (ℕ × Entry))
    → length ks ≤ capacity
    → capacity ≤ length ks
    → evict_loop capacity (k ∷ ks) entries ≡ (ks, map_remove entries k)
one_over capacity k ks entries l g = ground (arith, evict_stop capacity ks (map_remove entries k) l)

map_keys-remove_first :
    (m : List (ℕ × Entry)) (k : ℕ) (ks : List ℕ)
    → map_keys m ≡ k ∷ ks
    → map_keys (map_remove m k) ≡ ks
map_keys-remove_first [] k ks h = cc
map_keys-remove_first ((j, a) ∷ m) k ks h = ground arith

-- What the loop leaves of a queue that is at most one key too long.
evict_loop-IsTable :
    (capacity : ℕ) (order : List ℕ) (entries : List (ℕ × Entry))
    → map_keys entries ≡ order
    → IsDistinct order
    → length order ≤ suc capacity
    → 1 ≤ capacity
    → let left = evict_loop capacity order entries in
      IsTable (record { entries = left.1; order = left.0; capacity = capacity })
evict_loop-IsTable capacity [] entries e d l p = record {
  same_keys = e;
  distinct = d;
  bounded = omega arith;
  positive = p;
}
evict_loop-IsTable capacity (o ∷ os) entries e d l p = elim (lt_or_ge (length os) capacity) [
  | inl fits ↦
      rw (evict_stop capacity (o ∷ os) entries (omega arith))
        (record { same_keys = e; distinct = d; bounded = omega arith; positive = p })
  | inr full ↦ rw (one_over capacity o os entries (omega arith) full) (record {
    same_keys = map_keys-remove_first entries o os e;
    distinct = d.1;
    bounded = omega arith;
    positive = p;
  })
]

insert_new-IsTable :
    (t : StateTable) (key : ℕ) (value : Entry)
    → IsTable t
    → map_get t.entries key ≡ none
    → IsTable (insert_new t key value)
unfolding insert_new
insert_new-IsTable t key value w h =
    evict_loop-IsTable t.capacity (t.order ++ (key ∷ [])) (map_put t.entries key value)
      (map_keys-put_absent t.entries key value h ∙ ap (λ ks. ks ++ (key ∷ [])) w.same_keys)
      (IsDistinct-snoc t.order key w.distinct
        (ap (λ ks. contains ks key) (sym w.same_keys) ∙ map_get-absent t.entries key h))
      (omega (arith, length-append t.order (key ∷ []), w.bounded)) w.positive

update-IsTable :
    (t : StateTable) (key : StateKey) (gen seq msg_id : ℕ)
    → IsTable t
    → IsTable (update t key gen seq msg_id).0
unfolding update
update-IsTable t key gen seq msg_id w = elim (Option-cases (map_get t.entries (to_u48 key))) [
  | inl absent ↦ rw absent (insert_new-IsTable t (to_u48 key) _ w absent)
  | inr (current, found) ↦ rw found (elim (Bool-cases (is_newer gen seq current)) [
    | inl newer ↦ rw newer (record {
      same_keys = map_keys-put_present t.entries (to_u48 key) _ current found ∙ w.same_keys;
      distinct = w.distinct;
      bounded = w.bounded;
      positive = w.positive;
    })
    | inr stale ↦ rw stale w
  ])
]

-- One update of a run.
pub record Update : Type 0 where
  pub key : StateKey
  pub gen : ℕ
  pub seq : ℕ
  pub msg_id : ℕ

unfoldable pub update_all : StateTable → List Update → StateTable
update_all t [] = t
update_all t (u ∷ us) = update_all (update t u.key u.gen u.seq u.msg_id).0 us

pub update_all-IsTable : (us : List Update) (t : StateTable) → IsTable t → IsTable (update_all t us)
unfolding update_all
update_all-IsTable [] t w = w
update_all-IsTable (u ∷ us) t w =
    update_all-IsTable us (update t u.key u.gen u.seq u.msg_id).0
      (update-IsTable t u.key u.gen u.seq u.msg_id w)

update_capacity :
    (t : StateTable) (key : StateKey) (gen seq msg_id : ℕ)
    → (update t key gen seq msg_id).0.capacity ≡ t.capacity
unfolding update insert_new
update_capacity t key gen seq msg_id = elim (Option-cases (map_get t.entries (to_u48 key))) [
  | inl absent ↦ rw absent refl
  | inr (current, found) ↦ rw found (elim (Bool-cases (is_newer gen seq current)) [
    | inl newer ↦ rw newer refl
    | inr stale ↦ rw stale refl
  ])
]

update_all_capacity : (us : List Update) (t : StateTable) → (update_all t us).capacity ≡ t.capacity
unfolding update_all
update_all_capacity [] t = refl
update_all_capacity (u ∷ us) t =
    update_all_capacity us (update t u.key u.gen u.seq u.msg_id).0
    ∙ update_capacity t u.key u.gen u.seq u.msg_id

with_capacity_asked : (c : ℕ) → (with_capacity c).capacity ≡ max c 1
unfolding with_capacity
with_capacity_asked c = refl

-- After any updates of a fresh table, the keys in the map are distinct, and there are no more of them
-- than the capacity that was asked for (and than one, where that was 0).
pub update_all-bounded :
    (c : ℕ) (us : List Update)
    → let t = update_all (with_capacity c) us in
      IsDistinct (map_keys t.entries) × (length t.entries ≤ max c 1)
update_all-bounded c us =
    let w = update_all-IsTable us (with_capacity c) (with_capacity-IsTable c) in
    let asked : (update_all (with_capacity c) us).capacity ≡ max c 1 =
      update_all_capacity us (with_capacity c) ∙ with_capacity_asked c in
    (
      subst IsDistinct (sym w.same_keys) w.distinct,
      omega (
        arith,
        length-map_keys (update_all (with_capacity c) us).entries,
        ap length w.same_keys,
        w.bounded,
        asked,
      ),
    )
