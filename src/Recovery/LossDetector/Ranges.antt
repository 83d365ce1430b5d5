-- ===== src/Recovery/LossDetector/Ranges.antt =====
-- `LossDetector::parse_ack_ranges`: the packet numbers that an ACK frame stands for.
use gtp_rs.Base.{
  ℕ, zero, suc, ◌+◌, ◌-◌, Bool, true, false, not, ◌&&◌, ltb, if◌then◌else◌, List, [], ◌∷◌, ◌++◌,
  take,
}
use gtp_rs.Wire.Frame.{AckRange}

abbrev pub max_acked_per_frame : ℕ
max_acked_per_frame = 16384

-- `(low..=high).rev()` with `n` numbers.
unfoldable pub count_down : ℕ → ℕ → List ℕ
count_down zero high = []
count_down (suc n) high = high ∷ count_down n (high - 1)

-- The loop, with whether it stands on the first range, `prev_low` (before the first range the
-- largest number) and `total`. Each `[]` is a `break`.
unfoldable pub parse_loop : Bool → ℕ → ℕ → List AckRange → List ℕ
parse_loop first prev_low total [] = []
parse_loop first prev_low total (range ∷ ranges) =
    let high = if first then prev_low else prev_low - range.gap - 1 in
    let low = high - range.length in
    let count = range.length + 1 in
    let rest = parse_loop false low (total + count) ranges in
    if not first && ltb prev_low (range.gap + 1)
    then []
    else if ltb high range.length
    then []
    else if ltb max_acked_per_frame (total + count)
    then []
    else count_down count high ++ rest

unfoldable pub parse_ack_ranges : ℕ → List AckRange → ℕ → List ℕ
parse_ack_ranges largest_pn ranges range_count =
    parse_loop true largest_pn 0 (take range_count ranges)
