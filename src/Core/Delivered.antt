-- ===== src/Core/Delivered.antt =====
-- crates/gtp-core/src/state.rs: the index of the reliable messages that were delivered, which stops a
-- second delivery. The hash set is a list; nothing reads its order.
pub mod Window
mod Examples
use gtp_rs.Base.{
  ℕ, ◌+◌, ◌-◌, max, ltb, if◌then◌else◌, Bool, true, false, List, [], ◌∷◌, ◌++◌, length, contains,
  without,
}

pub record DeliveredIndex : Type 0 where
  pub seen : List ℕ
  pub order : List ℕ
  pub capacity : ℕ

unfoldable pub new : ℕ → DeliveredIndex
new capacity = record { seen = []; order = []; capacity = max capacity 16 }

-- The loop that forgets the oldest keys while there are too many.
unfoldable pub forget : ℕ → List ℕ → List ℕ → List ℕ × List ℕ
forget capacity seen [] = (seen, [])
forget capacity seen (old ∷ order) =
    let later = forget capacity (without old seen) order in
    if ltb capacity (length (old ∷ order)) then later else (seen, old ∷ order)

-- The index after the call, and whether the key was new.
unfoldable pub insert_if_new : DeliveredIndex → ℕ → DeliveredIndex × Bool
insert_if_new d key =
    let (seen, order) = forget d.capacity (key ∷ d.seen) (d.order ++ (key ∷ [])) in
    if contains d.seen key then (d, false) else (record d { seen = seen; order = order }, true)
