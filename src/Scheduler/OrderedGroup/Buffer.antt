-- ===== src/Scheduler/OrderedGroup/Buffer.antt =====
-- The caps of the reorder buffer, its byte counter, and that nothing deliverable is held back.
use gtp_rs.Base.{
  ℕ, zero, suc, ◌+◌, ◌-◌, ◌≤◌, ◌≡◌, refl, arith, ltb, ◌==◌, false, inl, inr, Bool-cases, none, some,
  Option-cases, List, [], ◌∷◌, length, map_get, map_put, map_remove, map_get-put,
}
use gtp_rs.Scheduler.OrderedGroup.{
  OrderedGroupReceiver, next_seq, drain, deliver, buffer, on_incoming, seq_is_stale, new,
}
use gtp_rs.Scheduler.OrderedGroup.Delivery.{drain-none, drain-some, receive}

abbrev pub total : List (ℕ × List ℕ) → ℕ
total [] = 0
total ((k, b) ∷ m) = length b + total m

total-remove :
    (m : List (ℕ × List ℕ)) (k : ℕ) (b : List ℕ)
    → map_get m k ≡ some b
    → (total (map_remove m k) + length b ≡ total m) × (suc (length (map_remove m k)) ≡ length m)
total-remove [] k b h = cc
total-remove ((j, a) ∷ m) k b h = ground (arith, total-remove m k b)

total-put :
    (m : List (ℕ × List ℕ)) (k : ℕ) (b : List ℕ)
    → map_get m k ≡ none
    → (total (map_put m k b) ≡ total m + length b) × (length (map_put m k b) ≡ suc (length m))
total-put [] k b h = (omega arith, refl)
total-put ((j, a) ∷ m) k b h = ground (arith, total-put m k b)

-- The counter is the bytes in the buffer, both caps hold, and the next payload is not in the buffer.
pub record IsGroup (r : OrderedGroupReceiver) : Type 0 where
  pub counted : r.current_buffer_bytes ≡ total r.reorder_buffer
  pub bytes_capped : r.current_buffer_bytes ≤ r.max_buffer_bytes
  pub items_capped : length r.reorder_buffer ≤ r.max_buffer_items
  pub drained : map_get r.reorder_buffer r.next_expected ≡ none

pub new-IsGroup : (group_id : ℕ) → IsGroup (new group_id)
unfolding new
new-IsGroup group_id = record {
  counted = refl;
  bytes_capped = omega arith;
  items_capped = omega arith;
  drained = refl;
}

-- The size of the buffer is fuel enough: the loop ends at a number that is not buffered.
drain_lem :
    (fuel next bytes : ℕ) (buf : List (ℕ × List ℕ))
    → bytes ≡ total buf
    → length buf ≤ fuel
    → let d = drain fuel next bytes buf in
      (d.bytes ≡ total d.buffer)
      × (d.bytes ≤ bytes)
      × (length d.buffer ≤ length buf)
      × (map_get d.buffer d.next ≡ none)
drain_lem zero next bytes [] e l = unfold drain in (e, omega arith, omega arith, refl)
drain_lem zero next bytes (x ∷ buf) e l = elim l [ ]
drain_lem (suc fuel) next bytes buf e l = elim (Option-cases (map_get buf next)) [
  | inl absent ↦ rw (drain-none fuel next bytes buf absent) (e, omega arith, omega arith, absent)
  | inr (b, found) ↦
      let (sum, shorter) = total-remove buf next b found in
      let (counted, less, fewer, head) =
        drain_lem fuel (next_seq next) (bytes - length b) (map_remove buf next) (omega arith)
          (omega arith) in
      rw (drain-some fuel next bytes buf b found) (counted, omega arith, omega arith, head)
]

buffer-IsGroup :
    (r : OrderedGroupReceiver) (seq : ℕ) (payload : List ℕ)
    → IsGroup r
    → (seq == r.next_expected) ≡ false
    → IsGroup (buffer r seq payload).0
unfolding buffer
buffer-IsGroup r seq payload w later =
    elim (Bool-cases (ltb r.max_buffer_items (length r.reorder_buffer + 1))) [
      | inl items ↦ rw items w
      | inr room ↦
          rw room
            (elim (Bool-cases (ltb r.max_buffer_bytes (r.current_buffer_bytes + length payload))) [
              | inl bytes ↦ rw bytes w
              | inr fits ↦ rw fits (elim (Option-cases (map_get r.reorder_buffer seq)) [
                | inl vacant ↦ rw vacant (inserted room fits vacant)
                | inr (b, occupied) ↦ rw occupied w
              ])
            ])
    ]
  where
    inserted :
        ltb r.max_buffer_items (length r.reorder_buffer + 1) ≡ false
        → ltb r.max_buffer_bytes (r.current_buffer_bytes + length payload) ≡ false
        → map_get r.reorder_buffer seq ≡ none
        → IsGroup (record r {
          current_buffer_bytes = r.current_buffer_bytes + length payload;
          reorder_buffer = map_put r.reorder_buffer seq payload;
        })
    inserted room fits vacant =
        let (sum, size) = total-put r.reorder_buffer seq payload vacant in
        record {
          counted = omega (arith, sum, w.counted);
          bytes_capped = ground arith;
          items_capped = ground arith;
          drained =
              ground (arith, map_get-put r.reorder_buffer seq r.next_expected payload, w.drained);
        }

on_incoming-IsGroup :
    (r : OrderedGroupReceiver) (seq : ℕ) (payload : List ℕ)
    → IsGroup r
    → IsGroup (on_incoming r seq payload).0
unfolding on_incoming deliver
on_incoming-IsGroup r seq payload w = elim (Bool-cases (seq_is_stale seq r.next_expected)) [
  | inl stale ↦ rw stale w
  | inr fresh ↦ rw fresh (elim (Bool-cases (seq == r.next_expected)) [
    | inl now ↦
        let (counted, less, fewer, head) =
          drain_lem (length r.reorder_buffer) (next_seq r.next_expected) r.current_buffer_bytes
            r.reorder_buffer w.counted (omega arith) in
        rw now (record {
          counted = counted;
          bytes_capped = omega (arith, less, w.bytes_capped);
          items_capped = omega (arith, fewer, w.items_capped);
          drained = head;
        })
    | inr later ↦ rw later (buffer-IsGroup r seq payload w later)
  ])
]

-- After any arrivals at a well-formed group, its byte counter is the bytes in its buffer, both caps hold, and the
-- payload that is expected next is not held back in the buffer.
pub receive-IsGroup :
    (arrivals : List (ℕ × List ℕ)) (r : OrderedGroupReceiver)
    → IsGroup r
    → IsGroup (receive r arrivals).0
unfolding receive
receive-IsGroup [] r w = w
receive-IsGroup ((seq, payload) ∷ arrivals) r w =
    receive-IsGroup arrivals (on_incoming r seq payload).0 (on_incoming-IsGroup r seq payload w)
