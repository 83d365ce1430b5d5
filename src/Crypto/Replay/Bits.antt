-- ===== src/Crypto/Replay/Bits.antt =====
-- What setting a bit and shifting do to the 128 flags of the window.
use gtp_rs.Base.{ℕ, ◌+◌, ◌-◌, ◌*◌, ◌/◌, ◌^◌, ◌<◌, ◌≤◌, ◌≡◌, arith, ap, ◌∙◌}
use gtp_rs.Base.{false, ltb, ◌==◌, ◌||◌, if◌then◌else◌, bit_or, inl, inr}
use gtp_rs.Base.{
  bit, bit_le, bit-bit_or, bit_and_pow, bit-div, bit-mul_below, bit-mul_above, bit-lt, bit-mod,
}
use gtp_rs.Base.{bit-pow_self, bit-pow_ne, bit_or-lt, one-le-pow, bit-zero, lt_or_ge, eq_or_ne}
use gtp_rs.Base.{pow-lt}
use native.Mathlib.Nat.{mod-lt, div-le_self}
use gtp_rs.Crypto.Replay.{ReplayWindow, shl64, has_bit, is_bit_set, set_bit, shift_bitmap}

has_bit-bit : (word i : ℕ) → has_bit word i ≡ (bit word i == 1)
has_bit-bit word i = ground (arith, bit_and_pow i word, one-le-pow i 2, bit_le word i, small)
  where
    small : bit word i * 2 ^ i ≡ (if bit word i == 1 then 2 ^ i else 0)
    small = grind (arith, bit_le word i)

bit_of_pow : (j i : ℕ) → bit (2 ^ j) i ≡ (if i == j then 1 else 0)
bit_of_pow j i = elim (eq_or_ne i j) [
  | inl e ↦ ground (arith, ap (λ (t : ℕ). bit (2 ^ j) t) e, bit-pow_self j)
  | inr n ↦ ground (arith, bit-pow_ne j i n)
]

has_bit-bit_or : (word j i : ℕ) → has_bit (bit_or word (2 ^ j)) i ≡ (i == j || has_bit word i)
has_bit-bit_or word j i = ground (
  arith,
  has_bit-bit (bit_or word (2 ^ j)) i,
  has_bit-bit word i,
  bit-bit_or i word (2 ^ j),
  bit_of_pow j i,
  bit_le word i,
)

-- Setting flag `j` sets that flag and no other.
pub is_bit_set-set_bit :
    (w : ReplayWindow) (j i : ℕ) → j < 128 → is_bit_set (set_bit w j) i ≡ (i == j || is_bit_set w i)
unfolding is_bit_set set_bit
is_bit_set-set_bit w j i h =
    ground (arith, has_bit-bit_or w.bitmap0 j i, has_bit-bit_or w.bitmap1 (j - 64) (i - 64))

bit-shl64 : (b s j : ℕ) → j < 64 → bit (shl64 b s) j ≡ (if ltb j s then 0 else bit b (j - s))
bit-shl64 b s j h = bit-mod 64 (b * 2 ^ s) j h ∙ elim (lt_or_ge j s) [
  | inl l ↦ ground (arith, bit-mul_below b s j l)
  | inr g ↦ ground (arith, above g)
]
  where
    above : s ≤ j → bit (b * 2 ^ s) j ≡ bit b (j - s)
    above g = ap (λ (t : ℕ). bit (b * 2 ^ s) t) (split g) ∙ bit-mul_above b s (j - s)
      where
        split : s ≤ j → j ≡ s + (j - s)
        split g = omega arith

pub record IsWord64 (w : ReplayWindow) : Type 0 where
  pub low : w.bitmap0 < 2 ^ 64
  pub high : w.bitmap1 < 2 ^ 64

-- The carry from word 0 into word 1.
bit_carry :
    (b s j : ℕ)
    → s < 64
    → b < 2 ^ 64
    → bit (b / 2 ^ (64 - s)) j ≡ (if ltb j s then bit b (64 + j - s) else 0)
bit_carry b s j h f = bit-div b (64 - s) j ∙ elim (lt_or_ge j s) [
  | inl l ↦ ground (arith, ap (λ (t : ℕ). bit b t) at)
  | inr g ↦ ground (arith, bit-lt b 64 (64 - s + j) f (omega arith))
]
  where
    at : 64 - s + j ≡ 64 + j - s
    at = omega arith

bit_high :
    (b0 b1 s j : ℕ)
    → s < 64
    → j < 64
    → b0 < 2 ^ 64
    → bit (bit_or (shl64 b1 s) (b0 / 2 ^ (64 - s))) j
      ≡ (if ltb j s then bit b0 (64 + j - s) else bit b1 (j - s))
bit_high b0 b1 s j h k f =
    ground (
      arith,
      bit-bit_or j (shl64 b1 s) (b0 / 2 ^ (64 - s)),
      bit-shl64 b1 s j k,
      bit_carry b0 s j h f,
    )

has_bit-shl64 :
    (b s j : ℕ) → j < 64 → has_bit (shl64 b s) j ≡ (if ltb j s then false else has_bit b (j - s))
has_bit-shl64 b s j h =
    ground (arith, has_bit-bit (shl64 b s) j, has_bit-bit b (j - s), bit-shl64 b s j h)

has_bit_high :
    (b0 b1 s j : ℕ)
    → s < 64
    → j < 64
    → b0 < 2 ^ 64
    → has_bit (bit_or (shl64 b1 s) (b0 / 2 ^ (64 - s))) j
      ≡ (if ltb j s then has_bit b0 (64 + j - s) else has_bit b1 (j - s))
has_bit_high b0 b1 s j h k f = ground (
  arith,
  has_bit-bit (bit_or (shl64 b1 s) (b0 / 2 ^ (64 - s))) j,
  has_bit-bit b0 (64 + j - s),
  has_bit-bit b1 (j - s),
  bit_high b0 b1 s j h k f,
)

has_bit-zero : (j : ℕ) → has_bit 0 j ≡ false
has_bit-zero j = ground (arith, has_bit-bit 0 j, bit-zero j)

-- Shifting moves flag `i` to flag `i + s` and clears the flags below `s`.
pub is_bit_set-shift_bitmap :
    (w : ReplayWindow) (s i : ℕ)
    → IsWord64 w
    → s < 128
    → i < 128
    → is_bit_set (shift_bitmap w s) i ≡ (if ltb i s then false else is_bit_set w (i - s))
unfolding is_bit_set shift_bitmap
is_bit_set-shift_bitmap w s i v h k = elim (lt_or_ge s 64) [
  | inl small ↦ elim (lt_or_ge i 64) [
    | inl low ↦ ground (arith, has_bit-shl64 w.bitmap0 s i low)
    | inr high ↦ ground (
      arith,
      has_bit_high w.bitmap0 w.bitmap1 s (i - 64) small (omega arith) v.low,
      ap (has_bit w.bitmap0) (wrapped high),
      ap (has_bit w.bitmap1) (reordered high),
    )
  ]
  | inr large ↦ ground (
    arith,
    has_bit-zero i,
    has_bit-shl64 w.bitmap0 (s - 64) (i - 64) (omega arith),
    ap (has_bit w.bitmap0) (shifted large),
  )
]
  where
    wrapped : 64 ≤ i → 64 + (i - 64) - s ≡ i - s
    wrapped g = omega arith

    reordered : 64 ≤ i → i - 64 - s ≡ i - s - 64
    reordered g = omega arith

    shifted : 64 ≤ s → i - 64 - (s - 64) ≡ i - s
    shifted g = omega arith

-- The words stay words.
pub shift_bitmap-IsWord64 : (w : ReplayWindow) (s : ℕ) → IsWord64 w → IsWord64 (shift_bitmap w s)
unfolding shift_bitmap
shift_bitmap-IsWord64 w s v = ground (
  arith,
  v.low,
  v.high,
  mod-lt (w.bitmap0 * 2 ^ (s - 64)) (two_64_pos),
  mod-lt (w.bitmap0 * 2 ^ s) (two_64_pos),
  div-le_self w.bitmap0 (2 ^ (64 - s)),
  bit_or-lt 64 (shl64 w.bitmap1 s) (w.bitmap0 / 2 ^ (64 - s)),
)
  where
    two_64_pos : 0 < 2 ^ 64
    two_64_pos = omega arith

pub set_bit-IsWord64 : (w : ReplayWindow) (j : ℕ) → IsWord64 w → IsWord64 (set_bit w j)
unfolding set_bit
set_bit-IsWord64 w j v = ground (
  arith,
  v.low,
  v.high,
  pow-lt j 64,
  pow-lt (j - 64) 64,
  bit_or-lt 64 w.bitmap0 (2 ^ j),
  bit_or-lt 64 w.bitmap1 (2 ^ (j - 64)),
)

-- A cleared window has no flag.
pub is_bit_set-cleared :
    (w : ReplayWindow) (i : ℕ) → is_bit_set (record w { bitmap0 = 0; bitmap1 = 0 }) i ≡ false
unfolding is_bit_set
is_bit_set-cleared w i = ground (arith, has_bit-zero i, has_bit-zero (i - 64))

pub has_bit-one : (i : ℕ) → has_bit 1 i ≡ (i == 0)
has_bit-one i = ground (arith, has_bit-bit 1 i, bit_of_pow 0 i)
