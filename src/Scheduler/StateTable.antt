-- ===== src/Scheduler/StateTable.antt =====
-- crates/gtp-scheduler/src/state_table.rs: the newest state of each key, for a bounded number of
-- keys. The hash map is a list of pairs; nothing reads its order.
pub mod Capacity
pub mod Freshness
mod Examples
use gtp_rs.Base.{
  ℕ, max, ltb, ◌==◌, ◌&&◌, ◌||◌, if◌then◌else◌, Bool, true, false, Option, none, some, List, [],
  ◌∷◌, ◌++◌, length, map_get, map_put, map_remove,
}
use gtp_rs.Types.Serial.{StateKey, to_u48, generation_is_newer_than, sequence_is_newer_than}

abbrev pub default_state_table_capacity : ℕ
default_state_table_capacity = 4096

-- The triple of a key.
pub record Entry : Type 0 where
  pub generation : ℕ
  pub sequence : ℕ
  pub message_id : ℕ

pub record StateTable : Type 0 where
  pub entries : List (ℕ × Entry)
  pub order : List ℕ
  pub capacity : ℕ

unfoldable pub with_capacity : ℕ → StateTable
with_capacity capacity = record { entries = []; order = []; capacity = max capacity 1 }

-- The loop of `insert_new`: the oldest keys go while there are more than the capacity.
abbrev pub evict_loop : ℕ → List ℕ → List (ℕ × Entry) → List ℕ × List (ℕ × Entry)
evict_loop capacity [] entries = ([], entries)
evict_loop capacity (oldest ∷ order) entries =
    let evicted = evict_loop capacity order (map_remove entries oldest) in
    if ltb capacity (length (oldest ∷ order)) then evicted else (oldest ∷ order, entries)

unfoldable pub insert_new : StateTable → ℕ → Entry → StateTable
insert_new t key value =
    let left = evict_loop t.capacity (t.order ++ (key ∷ [])) (map_put t.entries key value) in
    record t { order = left.0; entries = left.1 }

-- Newer by generation, or by sequence within the generation.
unfoldable pub is_newer : ℕ → ℕ → Entry → Bool
is_newer gen seq current =
    generation_is_newer_than gen current.generation
    || (gen == current.generation && sequence_is_newer_than seq current.sequence)

abbrev admits : Option Entry → ℕ → ℕ → Bool
admits none gen seq = true
admits (some current) gen seq = is_newer gen seq current

unfoldable pub should_admit : StateTable → StateKey → ℕ → ℕ → Bool
should_admit t key gen seq = admits (map_get t.entries (to_u48 key)) gen seq

abbrev updated : StateTable → ℕ → Option Entry → Entry → StateTable × Option ℕ
updated t key none value = (insert_new t key value, none)
updated t key (some current) value =
    if is_newer value.generation value.sequence current
    then (record t { entries = map_put t.entries key value }, some current.message_id)
    else (t, none)

-- The table, and the message that the update supersedes.
unfoldable pub update : StateTable → StateKey → ℕ → ℕ → ℕ → StateTable × Option ℕ
update t key gen seq msg_id =
    updated t (to_u48 key) (map_get t.entries (to_u48 key))
      (record { generation = gen; sequence = seq; message_id = msg_id })
