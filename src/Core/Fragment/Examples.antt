-- ===== src/Core/Fragment/Examples.antt =====
-- The reassembler on concrete messages, and its theorems there.
use gtp_rs.Base.{
  ℕ, ◌+◌, ◌*◌, ◌%◌, ◌^◌, ◌≤◌, ◌<◌, max, ◌≡◌, ◌⊎◌, refl, arith, some, List, [], ◌∷◌, length, map_sum,
}
use gtp_rs.Types.Errors.{ok, err, payload_too_large}
use gtp_rs.Core.Fragment.{
  MessageReassembler, max_reassembly_messages, max_reassembly_bytes, message_fragment_count, new,
  push, push_known, push_new, store, complete, assemble, sweep, sweep_loop, stale_ids, evict_loop,
}
use gtp_rs.Core.Fragment.Slots.{slot_bytes}
use gtp_rs.Core.Fragment.Bounds.{Arrival, run, run_bounded}
use gtp_rs.Core.Fragment.Integrity.{AreWhole, reassembled_whole}
use gtp_rs.Core.Fragment.Completion.{sends, fragments_delivered}
use gtp_rs.Core.Fragment.Count.{message_fragment_count_least}

-- A message of three fragments, pushed in the order 0, 2, 2, 1.
abbrev sevens : List (List ℕ)
sevens = (7 ∷ 7 ∷ []) ∷ (8 ∷ 8 ∷ []) ∷ (9 ∷ []) ∷ []

abbrev arrives : ℕ → List ℕ → Arrival
arrives idx payload = record { message_id = 7; idx = idx; total = 3; payload = payload; now = 1000 }

abbrev shuffled : List Arrival
shuffled =
    arrives 0 (7 ∷ 7 ∷ []) ∷ arrives 2 (9 ∷ []) ∷ arrives 2 (9 ∷ []) ∷ arrives 1 (8 ∷ 8 ∷ []) ∷ []

delivered_once : run new shuffled ≡ some (new, (7, 7 ∷ 7 ∷ 8 ∷ 8 ∷ 9 ∷ []) ∷ [])
unfolding run new push push_known push_new store complete assemble sweep sweep_loop stale_ids
    evict_loop
delivered_once = refl

run_bounded_example :
    (end : MessageReassembler) × (out : List (ℕ × List ℕ)) × (run new shuffled ≡ some (end, out))
    × (length end.entries ≤ max_reassembly_messages)
    × (end.total_bytes ≡ map_sum (λ e. slot_bytes e.parts) end.entries)
    × (end.total_bytes ≤ max_reassembly_bytes)
run_bounded_example = run_bounded shuffled

reassembled_whole_example :
    (end : MessageReassembler) × (out : List (ℕ × List ℕ)) × (run new shuffled ≡ some (end, out))
    × AreWhole (λ id. sevens) out
reassembled_whole_example =
    reassembled_whole (λ id. sevens) shuffled
      ((refl, refl), ((refl, refl), ((refl, refl), ((refl, refl), tt))))

fragments_delivered_example :
    run new (sends 7 (λ j. 1000 + 4000000 * j) 3 0 sevens)
    ≡ some (new, (7, 7 ∷ 7 ∷ 8 ∷ 8 ∷ 9 ∷ []) ∷ [])
fragments_delivered_example =
    fragments_delivered 7 (λ j. 1000 + 4000000 * j) (7 ∷ 7 ∷ []) ((8 ∷ 8 ∷ []) ∷ (9 ∷ []) ∷ [])
      (λ j. omega arith) (omega arith)

message_fragment_count_least_example :
    ((n : ℕ) × (message_fragment_count 2500 1100 ≡ ok n)
      × (2500 ≤ n * max 1100 1)
      × (n * max 1100 1 < 2500 + max 1100 1)
      × (0 < n)
      × (n ≤ 65535))
    ⊎ ((message_fragment_count 2500 1100 ≡ err (payload_too_large (max 1100 1 * 65535 % 2 ^ 64)))
        × ((◌≡◌ {A = ℕ} 2500 0) ⊎ (max 1100 1 * 65535 < 2500)))
message_fragment_count_least_example = message_fragment_count_least 2500 1100
