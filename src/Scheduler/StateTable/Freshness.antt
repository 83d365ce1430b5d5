-- ===== src/Scheduler/StateTable/Freshness.antt =====
-- An update is recorded exactly when it is admitted.
use gtp_rs.Base.{
  ℕ, suc, ◌≤◌, ◌≡◌, refl, sym, ap, ◌∙◌, arith, ◌==◌, if◌then◌else◌, false, inl, inr, Bool-cases,
  lt_or_ge, none, some, Option-cases, List, [], ◌∷◌, ◌++◌, length, length-append, contains, map_get,
  map_put, map_remove, map_get-absent, map_get-put,
}
use gtp_rs.Types.Serial.{StateKey, to_u48}
use gtp_rs.Scheduler.StateTable.{
  StateTable, Entry, evict_loop, insert_new, is_newer, update, should_admit,
}
use gtp_rs.Scheduler.StateTable.Capacity.{IsTable, one_over, evict_stop}

map_get-remove_other :
    (m : List (ℕ × Entry)) (o k : ℕ) → (k == o) ≡ false → map_get (map_remove m o) k ≡ map_get m k
map_get-remove_other [] o k h = refl
map_get-remove_other ((j, a) ∷ m) o k h = ground (arith, map_get-remove_other m o k)

-- The newest key survives the eviction.
evict_loop_newest :
    (capacity key : ℕ) (order : List ℕ) (entries : List (ℕ × Entry))
    → contains order key ≡ false
    → length order ≤ capacity
    → 1 ≤ capacity
    → map_get (evict_loop capacity (order ++ (key ∷ [])) entries).1 key ≡ map_get entries key
evict_loop_newest capacity key [] entries h l p =
    rw (evict_stop capacity (key ∷ []) entries (omega arith)) refl
evict_loop_newest capacity key (o ∷ os) entries h l p =
    let size : length (os ++ (key ∷ [])) ≡ suc (length os) =
      omega (arith, length-append os (key ∷ [])) in
    elim (lt_or_ge (length (o ∷ os)) capacity) [
      | inl fits ↦ rw (evict_stop capacity (o ∷ (os ++ (key ∷ []))) entries (omega arith)) refl
      | inr full ↦
          rw (one_over capacity o (os ++ (key ∷ [])) entries (omega arith) (omega arith))
            (map_get-remove_other entries o key (ground arith))
    ]

insert_new-get :
    (t : StateTable) (key : ℕ) (value : Entry)
    → IsTable t
    → map_get t.entries key ≡ none
    → map_get (insert_new t key value).entries key ≡ some value
unfolding insert_new
insert_new-get t key value w h =
    evict_loop_newest t.capacity key t.order (map_put t.entries key value)
      (ap (λ ks. contains ks key) (sym w.same_keys) ∙ map_get-absent t.entries key h) w.bounded
      w.positive
    ∙ map_get-put t.entries key key value
    ∙ same
  where
    same : (if key == key then some value else map_get t.entries key) ≡ some value
    same = ground arith

-- After an update of a well-formed table, it holds for its key the new generation, sequence and message exactly when
-- `should_admit` admits them, also where the insertion evicts a key; otherwise what it held before.
pub update-get :
    (t : StateTable) (key : StateKey) (gen seq msg_id : ℕ)
    → IsTable t
    → map_get (update t key gen seq msg_id).0.entries (to_u48 key) ≡ (
        if should_admit t key gen seq
        then some (record { generation = gen; sequence = seq; message_id = msg_id })
        else map_get t.entries (to_u48 key))
unfolding update should_admit
update-get t key gen seq msg_id w = elim (Option-cases (map_get t.entries (to_u48 key))) [
  | inl absent ↦ rw absent (insert_new-get t (to_u48 key) _ w absent)
  | inr (current, found) ↦ rw found (elim (Bool-cases (is_newer gen seq current)) [
    | inl newer ↦ rw newer (map_get-put t.entries (to_u48 key) (to_u48 key) value ∙ same)
    | inr stale ↦ rw stale found
  ])
]
  where
    value : Entry
    value = record { generation = gen; sequence = seq; message_id = msg_id }

    same :
        (if to_u48 key == to_u48 key then some value else map_get t.entries (to_u48 key))
        ≡ some value
    same = ground arith
