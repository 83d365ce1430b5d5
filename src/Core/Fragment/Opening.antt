-- ===== src/Core/Fragment/Opening.antt =====
-- The first fragment of a message: the invariant after it.
use gtp_rs.Base.{
  ℕ, zero, suc, ◌+◌, ◌≤◌, ◌<◌, ◌≡◌, refl, sym, ap, ◌∙◌, subst, arith, ltb, ◌==◌, inl, inr,
  Bool-cases, ==_iff, none, some, List, [], ◌∷◌, ◌++◌, length, length-append, length-replicate,
  replicate, set, contains, IsDistinct, IsDistinct-snoc, IsDistinct-without, length-without_le,
  without, map_get, map_put, MapAll-put_remove, map_get-put, map_keys, length-map_keys,
  map_get-absent, map_keys-put_absent, map_keys-remove, map_sum-put_absent, map_sum-remove,
  MapAll-put,
}
use gtp_rs.Core.Fragment.{
  MessageReassembler, Partial, max_reassembly_messages, max_reassembly_bytes, complete, evict_loop,
  push_new,
}
use gtp_rs.Core.Fragment.Slots.{slot_bytes, filled, slot-replicate, assemble-full}
use gtp_rs.Core.Fragment.Invariant.{
  IsPartial, weight, IsReassembler, IsFine, evict_loop-IsReassembler, evict_loop-absent, self_test,
}

-- The first fragment of a message, in a state with room for it.
module _ (r : MessageReassembler) (id : ℕ) (e : Partial) (w : IsReassembler r)
    (absent : map_get r.entries id ≡ none) (room : length r.entries < max_reassembly_messages)
    (fits : r.total_bytes + e.bytes ≤ max_reassembly_bytes) where
  opened_keys : map_keys (map_put r.entries id e) ≡ r.order ++ (id ∷ [])
  opened_keys = map_keys-put_absent r.entries id e absent ∙ ap (λ ks. ks ++ (id ∷ [])) w.same_keys

  opened-IsDistinct : IsDistinct (r.order ++ (id ∷ []))
  opened-IsDistinct =
      IsDistinct-snoc r.order id w.distinct
        (ap (λ ks. contains ks id) (sym w.same_keys) ∙ map_get-absent r.entries id absent)

  opened_few : length (r.order ++ (id ∷ [])) ≤ max_reassembly_messages
  opened_few = omega (
    arith,
    length-append r.order (id ∷ []),
    length-map_keys r.entries,
    ap length w.same_keys,
    room,
  )

  open-IsReassembler :
      IsPartial e
      → IsReassembler (record {
        entries = map_put r.entries id e;
        order = r.order ++ (id ∷ []);
        total_bytes = r.total_bytes + e.bytes;
      })
  open-IsReassembler p = record {
    same_keys = opened_keys;
    distinct = opened-IsDistinct;
    few = opened_few;
    sound = MapAll-put (λ i p. IsPartial p) r.entries id e w.sound p;
    weighed = omega (arith, map_sum-put_absent weight r.entries id e absent, w.weighed);
    light = fits;
  }

  open_complete-IsFine :
      length e.parts ≡ filled e.parts
      → IsFine (
          complete
            (record {
              entries = map_put r.entries id e;
              order = r.order ++ (id ∷ []);
              total_bytes = r.total_bytes + e.bytes;
            })
            id
            e)
  unfolding complete
  open_complete-IsFine full =
      let (payload, whole) = assemble-full e.parts (sym full) in
      let self : map_get (map_put r.entries id e) id ≡ some e =
        map_get-put r.entries id id e ∙ self_test id (some e) (map_get r.entries id) in
      rw whole (record {
        same_keys =
            map_keys-remove (map_put r.entries id e) id
              (subst IsDistinct (sym opened_keys) opened-IsDistinct)
            ∙ ap (without id) opened_keys;
        distinct = IsDistinct-without id (r.order ++ (id ∷ [])) opened-IsDistinct;
        few = omega (arith, length-without_le id (r.order ++ (id ∷ [])), opened_few);
        sound = MapAll-put_remove (λ i p. IsPartial p) r.entries id e w.sound;
        weighed = omega (
          arith,
          map_sum-put_absent weight r.entries id e absent,
          map_sum-remove weight (map_put r.entries id e) id e self,
          w.weighed,
        );
        light = omega (arith, fits);
      })

-- The slots of a new message: the first one filled.
first_slots :
    (total : ℕ) (payload : List ℕ)
    → 0 < total
    → let ps = set (replicate total none) 0 (some payload) in
      (length ps ≡ total) × (slot_bytes ps ≡ length payload) × (filled ps ≡ 1)
first_slots zero payload h = elim h [ ]
first_slots (suc n) payload h =
    let (bytes, none_filled) = slot-replicate n in
    (ap suc (length-replicate n none), omega arith, ap suc none_filled)

pub push_new-IsFine :
    (r : MessageReassembler) (id idx total : ℕ) (payload : List ℕ) (now : ℕ)
    → IsReassembler r
    → map_get r.entries id ≡ none
    → 0 < total
    → IsFine (push_new r id idx total payload now)
unfolding push_new
push_new-IsFine r id idx total payload now w absent positive =
    let (kept, room) = evict_loop-IsReassembler r.order r refl w in
    let gone = evict_loop-absent r.order r id absent in
    let (sized, weighed, one) = first_slots total payload positive in
    elim (Bool-cases (idx == 0)) [
      | inr orphan ↦ rw orphan w
      | inl head ↦ rw head (elim (Bool-cases (ltb max_reassembly_bytes (length payload))) [
        | inl huge ↦ rw huge w
        | inr small ↦
            rw small
              (elim (Bool-cases
                (ltb max_reassembly_bytes ((evict_loop r.order r).total_bytes + length payload))) [
                  | inl over ↦ rw over kept
                  | inr fits ↦
                      let light : (evict_loop r.order r).total_bytes + length payload
                          ≤ max_reassembly_bytes =
                        ground arith in
                      rw fits (elim (Bool-cases (total == 1)) [
                        | inl single ↦ rw single (
                            open_complete-IsFine (evict_loop r.order r) id _ kept gone room light
                              (omega (arith, sized, one, (==_iff total 1).0 single)))
                        | inr several ↦ rw several (
                            open-IsReassembler (evict_loop r.order r) id _ kept gone room light
                              (record {
                                sized = sized;
                                weighed = sym weighed;
                                counted = sym one;
                                incomplete = ground (arith, positive);
                              }))
                      ])
                ])
      ])
    ]
