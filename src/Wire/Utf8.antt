-- ===== src/Wire/Utf8.antt =====
-- What crates/gtp-wire/src/frame.rs uses of the standard library's strings: `str::from_utf8`
-- accepts exactly the well-formed byte sequences (Unicode, table 3-7).
use gtp_rs.Base.{
  ℕ, zero, suc, ltb, leb, ◌==◌, ◌&&◌, if◌then◌else◌, Bool, true, false, List, [], ◌∷◌,
}

-- How many continuation bytes a lead byte announces, and the range of the first of them.
abbrev between : ℕ → ℕ → ℕ → Bool
between b lo hi = leb lo b && leb b hi

abbrev pub continuations : ℕ → ℕ
continuations b = if between b 0xc2 0xdf then 1 else if between b 0xe0 0xef then 2 else 3

abbrev pub first_low : ℕ → ℕ
first_low b = if b == 0xe0 then 0xa0 else if b == 0xf0 then 0x90 else 0x80

abbrev pub first_high : ℕ → ℕ
first_high b = if b == 0xed then 0x9f else if b == 0xf4 then 0x8f else 0xbf

-- `pending` continuation bytes are due, the next one from `lo` to `hi`.
unfoldable pub utf8_from : ℕ → ℕ → ℕ → List ℕ → Bool
utf8_from zero lo hi [] = true
utf8_from (suc pending) lo hi [] = false
utf8_from zero lo hi (b ∷ bs) =
    let plain = utf8_from 0 0x80 0xbf bs in
    let lead = utf8_from (continuations b) (first_low b) (first_high b) bs in
    if ltb b 0x80 then plain else between b 0xc2 0xf4 && lead
utf8_from (suc pending) lo hi (b ∷ bs) = between b lo hi && utf8_from pending 0x80 0xbf bs

pub is_utf8 : List ℕ → Bool
is_utf8 bs = utf8_from 0 0x80 0xbf bs
