-- ===== src/Core/Fragment.antt =====
-- crates/gtp-core/src/fragment.rs: bounded reassembly of fragmented messages. The hash map is a list
-- of pairs; nothing reads its order. A panic of the source is `none`.
pub mod Slots
pub mod Invariant
pub mod Storing
pub mod Opening
pub mod Bounds
pub mod Integrity
pub mod Completion
pub mod Count
mod Examples
use gtp_rs.Base.{
  ℕ, zero, suc, ◌+◌, ◌-◌, ◌*◌, ◌/◌, ◌%◌, ◌^◌, max, ltb, leb, ◌==◌, ◌||◌, not, if◌then◌else◌, Bool,
  true, false, Option, none, some, List, [], ◌∷◌, ◌++◌, length, replicate, set, get_elem?, map_get,
  map_put, map_remove, map_keys, without,
}
use gtp_rs.Types.Errors.{Result, ok, err, payload_too_large}
use gtp_rs.Types.Time.{duration_since, from_secs}

abbrev pub max_reassembly_messages : ℕ
max_reassembly_messages = 64

abbrev pub max_reassembly_bytes : ℕ
max_reassembly_bytes = 4 * 1024 * 1024

abbrev pub reassembly_ttl : ℕ
reassembly_ttl = from_secs 5

-- `u16::MAX`.
abbrev pub max_total_fragments : ℕ
max_total_fragments = 65535

-- `div_ceil`.
abbrev pub div_ceil : ℕ → ℕ → ℕ
div_ceil n d = (n + d - 1) / d

unfoldable pub message_fragment_count : ℕ → ℕ → Result ℕ
message_fragment_count len budget =
    let floored = max budget 1 in
    let total = div_ceil len floored in
    if total == 0 || ltb max_total_fragments total
    then err (payload_too_large (floored * max_total_fragments % 2 ^ 64))
    else ok total

pub data PushOutcome : Type 0 where
  delivered : List ℕ → PushOutcome
  partial : PushOutcome
  dropped : PushOutcome

pub record Partial : Type 0 where
  pub total : ℕ
  pub parts : List (Option (List ℕ))
  pub received : ℕ
  pub bytes : ℕ
  pub last_touch : ℕ

pub record MessageReassembler : Type 0 where
  pub entries : List (ℕ × Partial)
  pub order : List ℕ
  pub total_bytes : ℕ

unfoldable pub new : MessageReassembler
new = record { entries = []; order = []; total_bytes = 0 }

abbrev pub len : MessageReassembler → ℕ
len r = length r.entries

abbrev pub is_empty : MessageReassembler → Bool
is_empty r = length r.entries == 0

abbrev pub buffered_bytes : MessageReassembler → ℕ
buffered_bytes r = r.total_bytes

-- The bytes of an entry that may be missing.
abbrev pub entry_bytes : Option Partial → ℕ
entry_bytes none = 0
entry_bytes (some e) = e.bytes

-- The ids whose entry is older than the time to live.
unfoldable pub stale_ids : ℕ → List (ℕ × Partial) → List ℕ
stale_ids now [] = []
stale_ids now ((id, e) ∷ m) =
    let rest = stale_ids now m in
    if ltb reassembly_ttl (duration_since now e.last_touch) then id ∷ rest else rest

unfoldable pub drop_entry : MessageReassembler → ℕ → MessageReassembler
drop_entry r id = record {
  entries = map_remove r.entries id;
  order = without id r.order;
  total_bytes = r.total_bytes - entry_bytes (map_get r.entries id);
}

unfoldable pub sweep_loop : List ℕ → MessageReassembler → MessageReassembler
sweep_loop [] r = r
sweep_loop (id ∷ ids) r = sweep_loop ids (drop_entry r id)

unfoldable pub sweep : MessageReassembler → ℕ → MessageReassembler
sweep r now = sweep_loop (stale_ids now r.entries) r

-- `expect` on every slot, and the slots' bytes in a row.
unfoldable pub assemble : List (Option (List ℕ)) → Option (List ℕ)
assemble [] = some []
assemble (none ∷ parts) = none
assemble (some p ∷ parts) = elim (assemble parts) [ none ↦ none | some rest ↦ some (p ++ rest) ]

-- The answer of a push with the state after it, or a panic.
abbrev pub Pushed : Type 0
Pushed = Option (MessageReassembler × PushOutcome)

abbrev delivering : MessageReassembler → Option (List ℕ) → Pushed
delivering r none = none
delivering r (some full) = some (r, delivered full)

-- The entry `e` of `id` is complete: it leaves, and its payload is delivered.
unfoldable pub complete : MessageReassembler → ℕ → Partial → Pushed
complete r id e =
    delivering
      (record {
        entries = map_remove r.entries id;
        order = without id r.order;
        total_bytes = r.total_bytes - e.bytes;
      })
      (assemble e.parts)

-- A fragment for an empty slot of a known message. `e` is touched already.
unfoldable pub store : MessageReassembler → ℕ → Partial → ℕ → List ℕ → Pushed
store r id e idx payload =
    let filled : Partial = record e {
      parts = set e.parts idx (some payload);
      bytes = e.bytes + length payload;
      received = e.received + 1;
    } in
    let stored : MessageReassembler = record r {
      entries = map_put r.entries id filled;
      total_bytes = r.total_bytes + length payload;
    } in
    if ltb max_reassembly_bytes (e.bytes + length payload)
      || ltb max_reassembly_bytes (r.total_bytes + length payload)
    then some (record r { entries = map_put r.entries id e }, dropped)
    else if filled.received == filled.total
    then complete stored id filled
    else some (stored, partial)

-- By what the slot holds: out of range, a payload already, or nothing.
abbrev pub at_slot : Option (Option (List ℕ)) → Pushed → Pushed → Pushed
at_slot none duplicate fresh = none
at_slot (some (some p)) duplicate fresh = duplicate
at_slot (some none) duplicate fresh = fresh

unfoldable pub push_known : MessageReassembler → ℕ → Partial → ℕ → ℕ → List ℕ → ℕ → Pushed
push_known r id e idx total payload now =
    let touched = record e { last_touch = now } in
    if e.total == total
    then at_slot (get_elem? e.parts idx)
        (some (record r { entries = map_put r.entries id touched }, partial))
        (store r id touched idx payload)
    else some (r, dropped)

-- The loop that makes room: the oldest message goes while there are too many.
unfoldable pub evict_loop : List ℕ → MessageReassembler → MessageReassembler
evict_loop [] r = r
evict_loop (oldest ∷ order) r =
    let after = evict_loop order (record {
      entries = map_remove r.entries oldest;
      order = order;
      total_bytes = r.total_bytes - entry_bytes (map_get r.entries oldest);
    }) in
    if leb max_reassembly_messages (length r.entries) then after else r

unfoldable pub push_new : MessageReassembler → ℕ → ℕ → ℕ → List ℕ → ℕ → Pushed
push_new r id idx total payload now =
    let room = evict_loop r.order r in
    let fresh : Partial = record {
      total = total;
      parts = set (replicate total none) 0 (some payload);
      received = 1;
      bytes = length payload;
      last_touch = now;
    } in
    let opened : MessageReassembler = record {
      entries = map_put room.entries id fresh;
      order = room.order ++ (id ∷ []);
      total_bytes = room.total_bytes + length payload;
    } in
    if not (idx == 0)
    then some (r, dropped)
    else if ltb max_reassembly_bytes (length payload)
    then some (r, dropped)
    else if ltb max_reassembly_bytes (room.total_bytes + length payload)
    then some (room, dropped)
    else if total == 1
    then complete opened id fresh
    else some (opened, partial)

abbrev pub by_entry : Option Partial → (Partial → Pushed) → Pushed → Pushed
by_entry none known fresh = fresh
by_entry (some e) known fresh = known e

unfoldable pub push : MessageReassembler → ℕ → ℕ → ℕ → List ℕ → ℕ → Pushed
push r message_id idx total payload now =
    let swept = sweep r now in
    if total == 0
    then some (r, dropped)
    else if leb total idx
    then some (r, dropped)
    else by_entry (map_get swept.entries message_id)
        (λ e. push_known swept message_id e idx total payload now)
        (push_new swept message_id idx total payload now)
