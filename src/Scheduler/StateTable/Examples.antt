-- ===== src/Scheduler/StateTable/Examples.antt =====
-- A table of two keys that sees a third one.
use gtp_rs.Base.{
  ℕ, ◌≡◌, ◌≤◌, max, if◌then◌else◌, some, List, [], ◌∷◌, length, IsDistinct, map_get, map_keys,
}
use gtp_rs.Types.Serial.{StateKey, to_u48}
use gtp_rs.Scheduler.StateTable.{with_capacity, update, should_admit}
use gtp_rs.Scheduler.StateTable.Capacity.{
  Update, update_all, update_all-IsTable, with_capacity-IsTable, update_all-bounded,
}
use gtp_rs.Scheduler.StateTable.Freshness.{update-get}

abbrev key : ℕ → StateKey
key entity = record { entity_id = entity; state_type = 1 }

abbrev updates : List Update
updates =
    record { key = key 10; gen = 1; seq = 1; msg_id = 100 }
    ∷ record { key = key 11; gen = 1; seq = 5; msg_id = 101 }
    ∷ record { key = key 10; gen = 1; seq = 2; msg_id = 102 }
    ∷ []

update_all-bounded_example :
    IsDistinct (map_keys (update_all (with_capacity 2) updates).entries)
    × (length (update_all (with_capacity 2) updates).entries ≤ max 2 1)
update_all-bounded_example = update_all-bounded 2 updates

update-get_example :
    let t = update_all (with_capacity 2) updates in
    map_get (update t (key 12) 1 9 103).0.entries (to_u48 (key 12)) ≡ (
      if should_admit t (key 12) 1 9
      then some (record { generation = 1; sequence = 9; message_id = 103 })
      else map_get t.entries (to_u48 (key 12)))
update-get_example =
    update-get (update_all (with_capacity 2) updates) (key 12) 1 9 103
      (update_all-IsTable updates (with_capacity 2) (with_capacity-IsTable 2))
