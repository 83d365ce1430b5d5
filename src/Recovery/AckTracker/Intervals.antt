-- ===== src/Recovery/AckTracker/Intervals.antt =====
-- The interval list of the tracker, newest first: insertion, merging and pruning.
use gtp_rs.Base.{
  ℕ, ◌+◌, ◌%◌, ◌^◌, Bool, true, false, ◌&&◌, ltb, leb, ◌==◌, if◌then◌else◌, List, [], ◌∷◌,
}

pub record PacketInterval : Type 0 where
  pub start : ℕ
  pub end : ℕ

-- `x + 1` on a u64.
abbrev pub next64 : ℕ → ℕ
next64 x = (x + 1) % 2 ^ 64

-- The loop of `merge_adjacent`, standing on the block `a`.
unfoldable pub merge_from : PacketInterval → List PacketInterval → List PacketInterval
merge_from a [] = a ∷ []
merge_from a (b ∷ rest) = elim (leb a.start (next64 b.end)) [
  | true ↦ merge_from (record a { start = b.start }) rest
  | false ↦ a ∷ merge_from b rest
]

unfoldable pub merge_adjacent : List PacketInterval → List PacketInterval
merge_adjacent [] = []
merge_adjacent (a ∷ rest) = merge_from a rest

-- The search loop of `insert_packet`: the new list, and whether the code then merges.
unfoldable pub insert_loop : ℕ → List PacketInterval → List PacketInterval × Bool
insert_loop pn [] = (record { start = pn; end = pn } ∷ [], false)
insert_loop pn (iv ∷ ivs) =
    let later = insert_loop pn ivs in
    if leb iv.start pn && leb pn iv.end
    then (iv ∷ ivs, false)
    else if next64 pn == iv.start
    then (record iv { start = pn } ∷ ivs, true)
    else if pn == next64 iv.end
    then (record iv { end = pn } ∷ ivs, true)
    else if ltb iv.end pn
    then (record { start = pn; end = pn } ∷ iv ∷ ivs, false)
    else (iv ∷ later.0, later.1)

unfoldable pub insert_packet : ℕ → List PacketInterval → List PacketInterval
insert_packet pn ivs =
    let (searched, merges) = insert_loop pn ivs in
    if merges then merge_adjacent searched else searched

-- `retain(|iv| iv.end > floor)`.
unfoldable pub retain_above : ℕ → List PacketInterval → List PacketInterval
retain_above floor [] = []
retain_above floor (iv ∷ ivs) =
    if ltb floor iv.end then iv ∷ retain_above floor ivs else retain_above floor ivs
