-- ===== src/Core/Fragment/Integrity.antt =====
-- What the reassembler delivers is the message that was cut.
use gtp_rs.Base.{
  ℕ, ◌+◌, ◌≡◌, sym, ap, subst, ltb, leb, ◌==◌, ◌||◌, inl, inr, Bool-cases, ==_iff, Option, none,
  some, Option-cases, List, [], ◌∷◌, ◌++◌, length, replicate, set, get_elem?, map_get, map_put,
  MapAll, MapAll-get, MapAll-put, MapAll-remove, MapAll-put_remove,
}
use gtp_rs.Core.Fragment.{
  MessageReassembler, Partial, Pushed, PushOutcome, partial, dropped, delivered,
  max_reassembly_messages, max_reassembly_bytes, drop_entry, sweep_loop, stale_ids, sweep, assemble,
  complete, store, push_known, evict_loop, push_new, push, new, at_slot,
}
use gtp_rs.Core.Fragment.Slots.{concat, PartsOf, PartsOf-replicate, PartsOf-set, assemble-PartsOf}
use gtp_rs.Core.Fragment.Bounds.{Arrival, delivery, run, run-IsReassembler}
use gtp_rs.Core.Fragment.Invariant.{new-IsReassembler}

-- The fragments that the sender cut each message into.
module _ (message : ℕ → List (List ℕ)) where
  -- An entry that belongs to the message `id`.
  abbrev IsOf : ℕ → Partial → Type 0
  IsOf id e = (e.total ≡ length (message id)) × PartsOf (message id) e.parts

  abbrev IsGenuine : MessageReassembler → Type 0
  IsGenuine r = MapAll IsOf r.entries

  -- A delivered payload is the whole message.
  abbrev IsWhole : ℕ → PushOutcome → Type 0
  IsWhole id (delivered full) = full ≡ concat (message id)
  IsWhole id partial = Unit {0}
  IsWhole id dropped = Unit {0}

  -- What holds of a push of the message `id`, if it does not panic.
  abbrev IsTrue : ℕ → Pushed → Type 0
  IsTrue id none = Unit {0}
  IsTrue id (some (r, o)) = IsGenuine r × IsWhole id o

  sweep_loop-IsGenuine :
      (ids : List ℕ) (r : MessageReassembler) → IsGenuine r → IsGenuine (sweep_loop ids r)
  unfolding sweep_loop drop_entry
  sweep_loop-IsGenuine [] r g = g
  sweep_loop-IsGenuine (id ∷ ids) r g =
      sweep_loop-IsGenuine ids (drop_entry r id) (MapAll-remove IsOf r.entries id g)

  evict_loop-IsGenuine :
      (order : List ℕ) (r : MessageReassembler) → IsGenuine r → IsGenuine (evict_loop order r)
  unfolding evict_loop
  evict_loop-IsGenuine [] r g = g
  evict_loop-IsGenuine (o ∷ order) r g =
      elim (Bool-cases (leb max_reassembly_messages (length r.entries))) [
        | inl full ↦ rw full (evict_loop-IsGenuine order _ (MapAll-remove IsOf r.entries o g))
        | inr room ↦ rw room g
      ]

  -- An entry of the message that was just written, and now leaves.
  complete-IsTrue :
      (m : List (ℕ × Partial)) (order : List ℕ) (bytes id : ℕ) (e : Partial)
      → MapAll IsOf m
      → IsOf id e
      → IsTrue id
          (complete (record { entries = map_put m id e; order = order; total_bytes = bytes }) id e)
  unfolding complete
  complete-IsTrue m order bytes id e g here = elim (Option-cases (assemble e.parts)) [
    | inl stuck ↦ rw stuck tt
    | inr (full, whole) ↦
        rw whole
          (MapAll-put_remove IsOf m id e g, assemble-PartsOf (message id) e.parts full here.1 whole)
  ]

  store-IsTrue :
      (r : MessageReassembler) (id : ℕ) (e : Partial) (idx : ℕ) (payload : List ℕ)
      → IsGenuine r
      → IsOf id e
      → get_elem? (message id) idx ≡ some payload
      → IsTrue id (store r id e idx payload)
  unfolding store
  store-IsTrue r id e idx payload g here cut =
      let parts = PartsOf-set (message id) e.parts idx payload here.1 cut in
      elim (Bool-cases (
        ltb max_reassembly_bytes (e.bytes + length payload)
        || ltb max_reassembly_bytes (r.total_bytes + length payload))) [
          | inl over ↦ rw over (MapAll-put IsOf r.entries id e g here, tt)
          | inr fits ↦ rw fits (elim (Bool-cases (e.received + 1 == e.total)) [
            | inl last ↦ rw last (complete-IsTrue r.entries r.order _ id _ g (here.0, parts))
            | inr more ↦ rw more (MapAll-put IsOf r.entries id _ g (here.0, parts), tt)
          ])
        ]

  push_known-IsTrue :
      (r : MessageReassembler) (id : ℕ) (e : Partial) (idx total : ℕ) (payload : List ℕ) (now : ℕ)
      → IsGenuine r
      → map_get r.entries id ≡ some e
      → get_elem? (message id) idx ≡ some payload
      → IsTrue id (push_known r id e idx total payload now)
  unfolding push_known
  push_known-IsTrue r id e idx total payload now g found cut =
      let here : IsOf id e = MapAll-get IsOf r.entries id e g found in
      elim (Bool-cases (e.total == total)) [
        | inl same ↦ rw same (by_slot (get_elem? e.parts idx) here)
        | inr other ↦ rw other (g, tt)
      ]
    where
      by_slot :
          (slot : Option (Option (List ℕ)))
          → IsOf id e
          → IsTrue id (
              at_slot slot
                (some (
                  record r { entries = map_put r.entries id (record e { last_touch = now }) },
                  partial,
                ))
                (store r id (record e { last_touch = now }) idx payload))
      by_slot none here = tt
      by_slot (some none) here =
          store-IsTrue r id (record e { last_touch = now }) idx payload g here cut
      by_slot (some (some p)) here = (MapAll-put IsOf r.entries id _ g here, tt)

  push_new-IsTrue :
      (r : MessageReassembler) (id idx total : ℕ) (payload : List ℕ) (now : ℕ)
      → IsGenuine r
      → get_elem? (message id) idx ≡ some payload
      → total ≡ length (message id)
      → IsTrue id (push_new r id idx total payload now)
  unfolding push_new
  push_new-IsTrue r id idx total payload now g cut size =
      let room = evict_loop-IsGenuine r.order r g in
      elim (Bool-cases (idx == 0)) [
        | inr orphan ↦ rw orphan (g, tt)
        | inl head ↦ rw head (elim (Bool-cases (ltb max_reassembly_bytes (length payload))) [
          | inl huge ↦ rw huge (g, tt)
          | inr small ↦
              rw small
                (elim (Bool-cases (
                  ltb max_reassembly_bytes ((evict_loop r.order r).total_bytes + length payload))) [
                    | inl over ↦ rw over (room, tt)
                    | inr fits ↦
                        let first : get_elem? (message id) 0 ≡ some payload =
                          subst (λ i. get_elem? (message id) i ≡ some payload)
                            ((==_iff idx 0).0 head) cut in
                        let parts : PartsOf (message id)
                            (set (replicate total none) 0 (some payload)) =
                          PartsOf-set (message id) (replicate total none) 0 payload
                            (subst (λ n. PartsOf (message id) (replicate n none)) (sym size)
                              (PartsOf-replicate (message id)))
                            first in
                        rw fits (elim (Bool-cases (total == 1)) [
                          | inl single ↦ rw single (complete-IsTrue _ _ _ id _ room (size, parts))
                          | inr several ↦ rw several (MapAll-put IsOf _ id _ room (size, parts), tt)
                        ])
                  ])
        ])
      ]

  push-IsTrue :
      (r : MessageReassembler) (id idx total : ℕ) (payload : List ℕ) (now : ℕ)
      → IsGenuine r
      → get_elem? (message id) idx ≡ some payload
      → total ≡ length (message id)
      → IsTrue id (push r id idx total payload now)
  unfolding push sweep
  push-IsTrue r id idx total payload now g cut size = elim (Bool-cases (total == 0)) [
    | inl empty ↦ rw empty (g, tt)
    | inr some_parts ↦ rw some_parts (elim (Bool-cases (leb total idx)) [
      | inl outside ↦ rw outside (g, tt)
      | inr inside ↦
          let s = sweep_loop (stale_ids now r.entries) r in
          let swept = sweep_loop-IsGenuine (stale_ids now r.entries) r g in
          rw inside (elim (Option-cases (map_get s.entries id)) [
            | inl absent ↦ rw absent (push_new-IsTrue s id idx total payload now swept cut size)
            | inr (e, found) ↦
                rw found (push_known-IsTrue s id e idx total payload now swept found cut)
          ])
    ])
  ]

  -- An arrival that is a fragment of its message.
  abbrev IsFragment : Arrival → Type 0
  IsFragment a =
      (get_elem? (message a.message_id) a.idx ≡ some a.payload)
      × (a.total ≡ length (message a.message_id))

  abbrev pub AreFragments : List Arrival → Type 0
  AreFragments [] = Unit {0}
  AreFragments (a ∷ more) = IsFragment a × AreFragments more

  -- Every delivery is the whole message of its id.
  abbrev pub AreWhole : List (ℕ × List ℕ) → Type 0
  AreWhole [] = Unit {0}
  AreWhole ((id, full) ∷ more) = (full ≡ concat (message id)) × AreWhole more

  AreWhole-delivery :
      (id : ℕ) (o : PushOutcome) (more : List (ℕ × List ℕ))
      → IsWhole id o
      → AreWhole more
      → AreWhole (delivery id o ++ more)
  AreWhole-delivery id (delivered full) more h g = (h, g)
  AreWhole-delivery id partial more h g = g
  AreWhole-delivery id dropped more h g = g

  run-AreWhole :
      (r : MessageReassembler) (arrivals : List Arrival) (end : MessageReassembler)
      (out : List (ℕ × List ℕ))
      → IsGenuine r
      → AreFragments arrivals
      → run r arrivals ≡ some (end, out)
      → AreWhole out
  unfolding run
  run-AreWhole r [] end out g f ran =
      subst AreWhole (ap (λ p. elim p [ none ↦ [] | some (r, d) ↦ d ]) ran) tt
  run-AreWhole r (a ∷ more) end out g f ran =
      let now = push-IsTrue r a.message_id a.idx a.total a.payload a.now g f.0.0 f.0.1 in
      elim (Option-cases (push r a.message_id a.idx a.total a.payload a.now)) [
        | inl stuck ↦
            let no_end : ◌≡◌ {A = Option (MessageReassembler × List (ℕ × List ℕ))} none
                (some (end, out)) =
              rw (stuck, run) at ran in
            cc
        | inr ((next, o), pushed) ↦
            let here : IsTrue a.message_id (some (next, o)) =
              subst (IsTrue a.message_id) pushed now in
            elim (Option-cases (run next more)) [
              | inl stuck ↦
                  let no_end : ◌≡◌ {A = Option (MessageReassembler × List (ℕ × List ℕ))} none
                      (some (end, out)) =
                    rw (pushed, run, stuck) at ran in
                  cc
              | inr ((last, rest), went) ↦
                  let all : some (last, delivery a.message_id o ++ rest) ≡ some (end, out) =
                    rw (pushed, run, went) at ran in
                  let tail = run-AreWhole next more last rest here.0 f.1 went in
                  subst AreWhole (ap (λ p. elim p [ none ↦ [] | some (r, d) ↦ d ]) all)
                    (AreWhole-delivery a.message_id o rest here.1 tail)
            ]
      ]

-- The messages are cut into fragments (`message id` lists those of `id`), and the peer sends only
-- those, in any order, at any times, lost, doubled or late, to an empty reassembler: no push panics,
-- and every payload delivered is a whole message, its fragments in order.
pub reassembled_whole :
    (message : ℕ → List (List ℕ)) (arrivals : List Arrival)
    → AreFragments message arrivals
    → (end : MessageReassembler) × (out : List (ℕ × List ℕ)) × (run new arrivals ≡ some (end, out))
      × AreWhole message out
unfolding new
reassembled_whole message arrivals genuine =
    let (end, out, ran, kept) = run-IsReassembler new arrivals new-IsReassembler in
    (end, out, ran, run-AreWhole message new arrivals end out nothing genuine ran)
  where
    nothing : IsGenuine message new
    nothing = tt
