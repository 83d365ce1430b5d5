-- ===== src/Core/Fragment/Invariant.antt =====
-- The invariant of the reassembler: its caps, its counters and its queue; expiry and eviction keep it.
use gtp_rs.Base.{
  ℕ, ◌-◌, ◌≤◌, ◌<◌, ◌≡◌, refl, sym, ap, ◌∙◌, subst, arith, leb, ◌==◌, if◌then◌else◌, true, inl, inr,
  Bool-cases, none, some, Option-cases, List, [], ◌∷◌, length, IsDistinct, IsDistinct-without,
  length-without_le, without, map_get, map_put, map_remove, map_remove-absent, map_get-remove_none,
  map_keys, length-map_keys, map_keys-put_present, map_keys-remove, map_sum, map_sum-put_present,
  map_sum-remove, MapAll, MapAll-put, MapAll-remove,
}
use gtp_rs.Core.Fragment.{
  MessageReassembler, Partial, Pushed, max_reassembly_messages, max_reassembly_bytes, drop_entry,
  sweep_loop, evict_loop, new, entry_bytes,
}
use gtp_rs.Core.Fragment.Slots.{slot_bytes, filled}

-- An incomplete message: its counters are those of its slots.
pub record IsPartial (e : Partial) : Type 0 where
  pub sized : length e.parts ≡ e.total
  pub weighed : e.bytes ≡ slot_bytes e.parts
  pub counted : e.received ≡ filled e.parts
  pub incomplete : e.received < e.total

abbrev pub weight : Partial → ℕ
weight e = e.bytes

pub record IsReassembler (r : MessageReassembler) : Type 0 where
  pub same_keys : map_keys r.entries ≡ r.order
  pub distinct : IsDistinct r.order
  pub few : length r.order ≤ max_reassembly_messages
  pub sound : MapAll (λ id e. IsPartial e) r.entries
  pub weighed : r.total_bytes ≡ map_sum weight r.entries
  pub light : r.total_bytes ≤ max_reassembly_bytes

pub new-IsReassembler : IsReassembler new
unfolding new
new-IsReassembler = record {
  same_keys = refl;
  distinct = tt;
  few = omega arith;
  sound = tt;
  weighed = refl;
  light = omega arith;
}

-- What `map_remove` and the counter do together.
remove_weight :
    (m : List (ℕ × Partial)) (id : ℕ)
    → map_sum weight (map_remove m id) ≡ map_sum weight m - entry_bytes (map_get m id)
remove_weight m id = elim (Option-cases (map_get m id)) [
  | inl absent ↦ rw (absent, map_remove-absent m id absent) (omega arith)
  | inr (e, found) ↦ rw found (omega (arith, map_sum-remove weight m id e found))
]

drop_entry-IsReassembler :
    (r : MessageReassembler) (id : ℕ) → IsReassembler r → IsReassembler (drop_entry r id)
unfolding drop_entry
drop_entry-IsReassembler r id w = record {
  same_keys =
      map_keys-remove r.entries id (subst IsDistinct (sym w.same_keys) w.distinct)
      ∙ ap (without id) w.same_keys;
  distinct = IsDistinct-without id r.order w.distinct;
  few = omega (arith, length-without_le id r.order, w.few);
  sound = MapAll-remove (λ i e. IsPartial e) r.entries id w.sound;
  weighed = omega (arith, remove_weight r.entries id, w.weighed);
  light = omega (arith, w.light);
}

pub sweep_loop-IsReassembler :
    (ids : List ℕ) (r : MessageReassembler) → IsReassembler r → IsReassembler (sweep_loop ids r)
unfolding sweep_loop
sweep_loop-IsReassembler [] r w = w
sweep_loop-IsReassembler (id ∷ ids) r w =
    sweep_loop-IsReassembler ids (drop_entry r id) (drop_entry-IsReassembler r id w)

-- The oldest entry stands first in the map and in the queue.
evict_first :
    (m : List (ℕ × Partial)) (o : ℕ) (os : List ℕ)
    → map_keys m ≡ o ∷ os
    → map_keys (map_remove m o) ≡ os
evict_first [] o os h = cc
evict_first ((j, a) ∷ m) o os h = ground arith

-- Eviction keeps the invariant, and leaves room for one more message.
pub evict_loop-IsReassembler :
    (order : List ℕ) (r : MessageReassembler)
    → r.order ≡ order
    → IsReassembler r
    → IsReassembler (evict_loop order r)
      × (length (evict_loop order r).entries < max_reassembly_messages)
unfolding evict_loop
evict_loop-IsReassembler [] r e w =
    (w, omega (arith, length-map_keys r.entries, ap length w.same_keys, ap length e))
evict_loop-IsReassembler (o ∷ os) r e w =
    elim (Bool-cases (leb max_reassembly_messages (length r.entries))) [
      | inl full ↦
          let d : IsDistinct (o ∷ os) = subst IsDistinct e w.distinct in
          rw full (
            evict_loop-IsReassembler os
              (record {
                entries = map_remove r.entries o;
                order = os;
                total_bytes = r.total_bytes - entry_bytes (map_get r.entries o);
              })
              refl
              (record {
                same_keys = evict_first r.entries o os (w.same_keys ∙ e);
                distinct = d.1;
                few = omega (arith, ap length e, w.few);
                sound = MapAll-remove (λ i p. IsPartial p) r.entries o w.sound;
                weighed = omega (arith, remove_weight r.entries o, w.weighed);
                light = omega (arith, w.light);
              }))
      | inr room ↦ rw room (w, ground arith)
    ]

-- A push that did not panic, and the invariant after it.
abbrev pub IsFine : Pushed → Type 0
IsFine none = ⊥
IsFine (some (r, outcome)) = IsReassembler r

-- A known entry that is only touched.
pub touch-IsReassembler :
    (r : MessageReassembler) (id : ℕ) (old e : Partial)
    → IsReassembler r
    → map_get r.entries id ≡ some old
    → IsPartial e
    → e.bytes ≡ old.bytes
    → IsReassembler (record r { entries = map_put r.entries id e })
touch-IsReassembler r id old e w found p same = record {
  same_keys = map_keys-put_present r.entries id e old found ∙ w.same_keys;
  distinct = w.distinct;
  few = w.few;
  sound = MapAll-put (λ i p. IsPartial p) r.entries id e w.sound p;
  weighed = omega (arith, map_sum-put_present weight r.entries id e old found, w.weighed);
  light = w.light;
}

pub evict_loop-absent :
    (order : List ℕ) (r : MessageReassembler) (id : ℕ)
    → map_get r.entries id ≡ none
    → map_get (evict_loop order r).entries id ≡ none
unfolding evict_loop
evict_loop-absent [] r id h = h
evict_loop-absent (o ∷ os) r id h =
    elim (Bool-cases (leb max_reassembly_messages (length r.entries))) [
      | inl full ↦ rw full (evict_loop-absent os _ id (map_get-remove_none r.entries o id h))
      | inr room ↦ rw room h
    ]

pub self_test {ℓ} : {A : Type ℓ} (id : ℕ) (a b : A) → (if id == id then a else b) ≡ a
self_test id a b = let same : (id == id) ≡ true = ground arith in rw same refl
