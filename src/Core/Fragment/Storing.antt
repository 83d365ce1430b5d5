-- ===== src/Core/Fragment/Storing.antt =====
-- A fragment of a known message: the invariant after it.
use gtp_rs.Base.{
  ℕ, ◌+◌, ◌≤◌, ◌<◌, ◌≡◌, refl, sym, ap, ◌∙◌, subst, arith, ltb, ◌==◌, ◌||◌, inl, inr, Bool-cases,
  ==_iff, Option, none, some, List, length, length-set, set, get_elem?, IsDistinct,
  IsDistinct-without, length-without_le, without, map_get, map_put, MapAll-put_remove, map_get-put,
  map_keys-put_present, map_keys-remove, map_sum-put_present, map_sum-remove, MapAll-get,
  MapAll-put,
}
use gtp_rs.Core.Fragment.{
  MessageReassembler, Partial, partial, max_reassembly_bytes, complete, store, push_known, at_slot,
}
use gtp_rs.Core.Fragment.Slots.{filled, slot-set, get_elem?-some, assemble-full}
use gtp_rs.Core.Fragment.Invariant.{
  IsPartial, weight, IsReassembler, IsFine, touch-IsReassembler, self_test,
}

-- An entry written in the place of `old`, and completed at once.
complete-IsFine :
    (r : MessageReassembler) (id : ℕ) (old e : Partial) (bytes : ℕ)
    → IsReassembler r
    → map_get r.entries id ≡ some old
    → length e.parts ≡ filled e.parts
    → e.bytes ≡ old.bytes + bytes
    → r.total_bytes + bytes ≤ max_reassembly_bytes
    → IsFine (
        complete
          (record r { entries = map_put r.entries id e; total_bytes = r.total_bytes + bytes })
          id
          e)
unfolding complete
complete-IsFine r id old e bytes w found full sum fits =
    let (payload, whole) = assemble-full e.parts (sym full) in
    let keys = map_keys-put_present r.entries id e old found ∙ w.same_keys in
    let self : map_get (map_put r.entries id e) id ≡ some e =
      map_get-put r.entries id id e ∙ self_test id (some e) (map_get r.entries id) in
    rw whole (record {
      same_keys =
          map_keys-remove (map_put r.entries id e) id (subst IsDistinct (sym keys) w.distinct)
          ∙ ap (without id) keys;
      distinct = IsDistinct-without id r.order w.distinct;
      few = omega (arith, length-without_le id r.order, w.few);
      sound = MapAll-put_remove (λ i p. IsPartial p) r.entries id e w.sound;
      weighed = omega (
        arith,
        map_sum-put_present weight r.entries id e old found,
        map_sum-remove weight (map_put r.entries id e) id e self,
        w.weighed,
      );
      light = omega (arith, fits);
    })

store-IsFine :
    (r : MessageReassembler) (id : ℕ) (old e : Partial) (idx : ℕ) (payload : List ℕ)
    → IsReassembler r
    → map_get r.entries id ≡ some old
    → IsPartial e
    → e.bytes ≡ old.bytes
    → get_elem? e.parts idx ≡ some none
    → IsFine (store r id e idx payload)
unfolding store
store-IsFine r id old e idx payload w found p same vacant =
    let (heavier, fuller) = slot-set e.parts idx payload vacant in
    let size = length-set e.parts idx (some payload) in
    elim (Bool-cases (
      ltb max_reassembly_bytes (e.bytes + length payload)
      || ltb max_reassembly_bytes (r.total_bytes + length payload))) [
        | inl over ↦ rw over (touch-IsReassembler r id old e w found p same)
        | inr fits ↦
            let room : r.total_bytes + length payload ≤ max_reassembly_bytes = ground arith in
            rw fits (elim (Bool-cases (e.received + 1 == e.total)) [
              | inl last ↦
                  let now : e.received + 1 ≡ e.total = (==_iff _ _).0 last in
                  rw last (
                    complete-IsFine r id old _ (length payload) w found
                      (omega (arith, size, fuller, p.sized, p.counted, now)) (omega arith) room)
              | inr more ↦ rw more (record {
                same_keys = map_keys-put_present r.entries id _ old found ∙ w.same_keys;
                distinct = w.distinct;
                few = w.few;
                sound =
                    MapAll-put (λ i p. IsPartial p) r.entries id _ w.sound
                      (record {
                        sized = size ∙ p.sized;
                        weighed = omega (arith, heavier, p.weighed);
                        counted = omega (arith, fuller, p.counted);
                        incomplete = ground (arith, p.incomplete);
                      });
                weighed = omega (
                  arith,
                  map_sum-put_present weight r.entries id
                      (record e {
                        parts = set e.parts idx (some payload);
                        bytes = e.bytes + length payload;
                        received = e.received + 1;
                      })
                      old found,
                  w.weighed,
                );
                light = room;
              })
            ])
      ]

pub push_known-IsFine :
    (r : MessageReassembler) (id : ℕ) (e : Partial) (idx total : ℕ) (payload : List ℕ) (now : ℕ)
    → IsReassembler r
    → map_get r.entries id ≡ some e
    → idx < total
    → IsFine (push_known r id e idx total payload now)
unfolding push_known
push_known-IsFine r id e idx total payload now w found inside =
    elim (Bool-cases (e.total == total)) [
      | inr other ↦ rw other w
      | inl same ↦
          let p : IsPartial e = MapAll-get (λ i p. IsPartial p) r.entries id e w.sound found in
          let touched : IsPartial (record e { last_touch = now }) = record {
            sized = p.sized;
            weighed = p.weighed;
            counted = p.counted;
            incomplete = p.incomplete;
          } in
          let equal : e.total ≡ total = (==_iff _ _).0 same in
          let (slot, at) = get_elem?-some e.parts idx (omega (arith, p.sized, equal)) in
          rw same (by_slot slot at touched)
    ]
  where
    by_slot :
        (slot : Option (List ℕ))
        → get_elem? e.parts idx ≡ some slot
        → IsPartial (record e { last_touch = now })
        → IsFine (
            at_slot
              (get_elem? e.parts idx)
              (some (
                record r { entries = map_put r.entries id (record e { last_touch = now }) },
                partial,
              ))
              (store r id (record e { last_touch = now }) idx payload))
    by_slot none at p =
        rw at (store-IsFine r id e (record e { last_touch = now }) idx payload w found p refl at)
    by_slot (some b) at p =
        rw at (touch-IsReassembler r id e (record e { last_touch = now }) w found p refl)
