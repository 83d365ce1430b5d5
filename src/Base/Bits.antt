-- ===== src/Base/Bits.antt =====
-- `|` and `&` at variables: the lowest digit, sums of disjoint fields, masks, and single bits.
use Prim.Native.Nat.{ℕ, zero, suc, ◌+◌, ◌-◌, ◌*◌, ◌/◌, ◌%◌, ◌^◌, ◌≤◌, ◌<◌, min, max}
use Prim.Native.Nat.{bit_and, bit_or, digits, bitwise, bit_and-bitwise, bit_or-bitwise}
use mathlib.Core.Path.{◌≡◌, refl, ap, sym, ◌∙◌}
use mathlib.Core.Logic.{◌≢◌}
use native.Mathlib.Nat.{le_refl, pow-suc, one-le-pow, mod-lt, mod-eq_of_lt, div-add-mod'}
use native.Mathlib.Nat.{mul-add-mod_self_right, div-div-eq-div-mul, mul-div_left}
use native.Mathlib.Omega.{arith}

module _ (z : ℕ → ℕ) (f : ℕ → ℕ → ℕ) where
  digits_enough : (n m a b : ℕ) → a ≤ n → a ≤ m → digits z f n a b ≡ digits z f m a b
  digits_enough zero zero a b p q = refl
  digits_enough zero (suc m) zero b p q = refl
  digits_enough zero (suc m) (suc a) b p q = absurd (omega arith)
  digits_enough (suc n) zero zero b p q = refl
  digits_enough (suc n) zero (suc a) b p q = absurd (omega arith)
  digits_enough (suc n) (suc m) zero b p q = refl
  digits_enough (suc n) (suc m) (suc a) b p q =
      rw (digits_enough n m (suc a / 2) (b / 2) (omega arith) (omega arith))

  bitwise_low :
      (a b : ℕ)
      → bitwise z f (suc a) b ≡ bitwise z f (suc a / 2) (b / 2) * 2 + f (suc a % 2) (b % 2)
  bitwise_low a b =
      omega (arith, digits_enough a (suc a / 2) (suc a / 2) (b / 2) (omega arith) (le_refl _))

pub bit_or_low : (a b : ℕ) → bit_or a b ≡ bit_or (a / 2) (b / 2) * 2 + max (a % 2) (b % 2)
bit_or_low zero b = simp bit_or-bitwise (omega arith)
bit_or_low (suc a) b = simp bit_or-bitwise (bitwise_low (λ y. y) max a b)

pub bit_and_low : (a b : ℕ) → bit_and a b ≡ bit_and (a / 2) (b / 2) * 2 + min (a % 2) (b % 2)
bit_and_low zero b = simp bit_and-bitwise (omega arith)
bit_and_low (suc a) b = simp bit_and-bitwise (bitwise_low (λ y. 0) min a b)

-- Bit `i` of a word, as 0 or 1.
abbrev pub bit : ℕ → ℕ → ℕ
bit a i = a / 2 ^ i % 2

pub bit_le : (a i : ℕ) → bit a i ≤ 1
bit_le a i = omega arith

-- `(q << k) | r` and `r | (q << k)` are sums where `r` fits below.
pow-double : (q k : ℕ) → q * 2 ^ suc k ≡ 2 * (q * 2 ^ k)
pow-double q k = omega (arith, ap (λ (t : ℕ). q * t) (pow-suc 2 k))

zero-bit_or : (b : ℕ) → bit_or 0 b ≡ b
zero-bit_or b = bit_or-bitwise 0 b

zero-bit_and : (b : ℕ) → bit_and 0 b ≡ 0
zero-bit_and b = bit_and-bitwise 0 b

bit_and-zero_below : (n a : ℕ) → a ≤ n → bit_and a 0 ≡ 0
bit_and-zero_below n zero h = zero-bit_and 0
bit_and-zero_below zero (suc a) h = absurd (omega arith)
bit_and-zero_below (suc n) (suc a) h =
    omega (arith, bit_and_low (suc a) 0, bit_and-zero_below n (suc a / 2) (omega arith))

pub bit_and-zero : (a : ℕ) → bit_and a 0 ≡ 0
bit_and-zero a = bit_and-zero_below a a (le_refl a)

pub bit_or_sum : (k q r : ℕ) → r < 2 ^ k → bit_or r (q * 2 ^ k) ≡ r + q * 2 ^ k
bit_or_sum zero q zero h = omega (arith, zero-bit_or (q * 2 ^ 0))
bit_or_sum zero q (suc r) h = absurd (omega arith)
bit_or_sum (suc k) q r h = omega (
  arith,
  bit_or_low r (q * 2 ^ suc k),
  pow-double q k,
  pow-suc 2 k,
  ap (bit_or (r / 2)) (half q k),
  bit_or_sum k q (r / 2) (omega (arith, pow-suc 2 k)),
)
  where
    half : (q k : ℕ) → q * 2 ^ suc k / 2 ≡ q * 2 ^ k
    half q k = omega (arith, pow-double q k)

pub mod_unique : (q m r : ℕ) → r < m → (q * m + r) % m ≡ r
mod_unique q m r h = grind (arith, mul-add-mod_self_right q m r, mod-eq_of_lt h)

mod-pow-suc : (k a : ℕ) → a % 2 ^ suc k ≡ a / 2 % 2 ^ k * 2 + a % 2
mod-pow-suc k a =
    ap (λ (t : ℕ). t % 2 ^ suc k) whole
    ∙ mod_unique (a / 2 / 2 ^ k) (2 ^ suc k) (a / 2 % 2 ^ k * 2 + a % 2)
        (omega (arith, pow-suc 2 k, mod-lt (a / 2) (one-le-pow k 2 (omega arith))))
  where
    whole : a ≡ a / 2 / 2 ^ k * 2 ^ suc k + (a / 2 % 2 ^ k * 2 + a % 2)
    whole = omega (arith, div-add-mod' (a / 2) (2 ^ k), pow-double (a / 2 / 2 ^ k) k)

-- A mask of `k` ones is the remainder.
pub bit_and_mask : (k a : ℕ) → bit_and a (2 ^ k - 1) ≡ a % 2 ^ k
bit_and_mask zero a = rw (bit_and-zero a) (omega arith)
bit_and_mask (suc k) a = omega (
  arith,
  bit_and_low a (2 ^ suc k - 1),
  ap (bit_and (a / 2)) half,
  mod-pow-suc k a,
  bit_and_mask k (a / 2),
  pow-suc 2 k,
  one-le-pow k 2 (omega arith),
)
  where
    half : (2 ^ suc k - 1) / 2 ≡ 2 ^ k - 1
    half = omega (arith, pow-suc 2 k, one-le-pow k 2 (omega arith))

pub pow-add : (i j : ℕ) → 2 ^ (i + j) ≡ 2 ^ i * 2 ^ j
pow-add zero j = omega (arith, ap (λ (t : ℕ). 2 ^ t) drop_zero)
  where
    drop_zero : 0 + j ≡ j
    drop_zero = omega arith
pow-add (suc i) j =
    ap (λ (t : ℕ). 2 ^ t) shift
    ∙ omega (arith, pow-suc 2 (i + j), pow-add i j, ap (λ (t : ℕ). t * 2 ^ j) (pow-suc 2 i))
  where
    shift : suc i + j ≡ suc (i + j)
    shift = omega arith

bit-suc : (a i : ℕ) → bit a (suc i) ≡ bit (a / 2) i
bit-suc a i =
    ap (λ (t : ℕ). t % 2) (ap (λ (t : ℕ). a / t) two ∙ sym (div-div-eq-div-mul a 2 (2 ^ i)))
  where
    two : 2 ^ suc i ≡ 2 * 2 ^ i
    two = omega (arith, pow-suc 2 i)

-- A bit of `a | b`.
pub bit-bit_or : (i a b : ℕ) → bit (bit_or a b) i ≡ max (bit a i) (bit b i)
bit-bit_or zero a b = omega (arith, bit_or_low a b)
bit-bit_or (suc i) a b = omega (
  arith,
  bit-suc (bit_or a b) i,
  ap (λ (t : ℕ). bit t i) half,
  bit-bit_or i (a / 2) (b / 2),
  bit-suc a i,
  bit-suc b i,
)
  where
    half : bit_or a b / 2 ≡ bit_or (a / 2) (b / 2)
    half = omega (arith, bit_or_low a b)

-- `a & (1 << i)` is that bit in its place.
pub bit_and_pow : (i a : ℕ) → bit_and a (2 ^ i) ≡ bit a i * 2 ^ i
bit_and_pow zero a = omega (arith, bit_and_low a 1, bit_and-zero (a / 2))
bit_and_pow (suc i) a = omega (
  arith,
  bit_and_low a (2 ^ suc i),
  ap (bit_and (a / 2)) half,
  bit_and_pow i (a / 2),
  pow-double (bit a (suc i)) i,
  bit-suc a i,
  ap (λ (t : ℕ). t * 2 ^ i) (bit-suc a i),
  pow-suc 2 i,
)
  where
    half : 2 ^ suc i / 2 ≡ 2 ^ i
    half = omega (arith, pow-suc 2 i)

-- Bits of shifts.
pub bit-div : (a s i : ℕ) → bit (a / 2 ^ s) i ≡ bit a (s + i)
bit-div a s i =
    ap (λ (t : ℕ). t % 2)
      (div-div-eq-div-mul a (2 ^ s) (2 ^ i) ∙ ap (λ (t : ℕ). a / t) (sym (pow-add s i)))

pub bit-mul_below : (a s i : ℕ) → i < s → bit (a * 2 ^ s) i ≡ 0
bit-mul_below a zero i h = elim h [ ]
bit-mul_below a (suc s) zero h = omega (arith, pow-double a s)
bit-mul_below a (suc s) (suc i) h =
    bit-suc (a * 2 ^ suc s) i ∙ ap (λ (t : ℕ). bit t i) half ∙ bit-mul_below a s i (omega arith)
  where
    half : a * 2 ^ suc s / 2 ≡ a * 2 ^ s
    half = omega (arith, pow-double a s)

pub bit-mul_above : (a s i : ℕ) → bit (a * 2 ^ s) (s + i) ≡ bit a i
bit-mul_above a s i =
    sym (bit-div (a * 2 ^ s) s i)
    ∙ ap (λ (t : ℕ). bit t i) (mul-div_left a (one-le-pow s 2 (omega arith)))

pub bit-zero : (i : ℕ) → bit 0 i ≡ 0
bit-zero zero = omega arith
bit-zero (suc i) = bit-suc 0 i ∙ bit-zero i

pub bit-lt : (a k i : ℕ) → a < 2 ^ k → k ≤ i → bit a i ≡ 0
bit-lt a zero i h l = let z : a ≡ 0 = omega arith in rw z (bit-zero i)
bit-lt a (suc k) zero h l = elim l [ ]
bit-lt a (suc k) (suc i) h l =
    bit-suc a i ∙ bit-lt (a / 2) k i (omega (arith, pow-suc 2 k)) (omega arith)

-- Cutting a word to `k` bits keeps the bits below `k`.
pub bit-mod : (k a i : ℕ) → i < k → bit (a % 2 ^ k) i ≡ bit a i
bit-mod zero a i h = elim h [ ]
bit-mod (suc k) a zero h = omega (arith, mod-pow-suc k a)
bit-mod (suc k) a (suc i) h =
    bit-suc (a % 2 ^ suc k) i
    ∙ ap (λ (t : ℕ). bit t i) half
    ∙ bit-mod k (a / 2) i (omega arith)
    ∙ sym (bit-suc a i)
  where
    half : a % 2 ^ suc k / 2 ≡ a / 2 % 2 ^ k
    half = omega (arith, mod-pow-suc k a)

-- A single bit.
pub bit-pow_self : (k : ℕ) → bit (2 ^ k) k ≡ 1
bit-pow_self zero = refl
bit-pow_self (suc k) = bit-suc (2 ^ suc k) k ∙ ap (λ (t : ℕ). bit t k) half ∙ bit-pow_self k
  where
    half : 2 ^ suc k / 2 ≡ 2 ^ k
    half = omega (arith, pow-suc 2 k)

pub bit-pow_ne : (k i : ℕ) → i ≢ k → bit (2 ^ k) i ≡ 0
bit-pow_ne zero zero h = absurd (h refl)
bit-pow_ne zero (suc i) h = bit-suc 1 i ∙ bit-zero i
bit-pow_ne (suc k) zero h = omega (arith, pow-suc 2 k)
bit-pow_ne (suc k) (suc i) h =
    bit-suc (2 ^ suc k) i ∙ ap (λ (t : ℕ). bit t i) half ∙ bit-pow_ne k i (λ e. h (ap suc e))
  where
    half : 2 ^ suc k / 2 ≡ 2 ^ k
    half = omega (arith, pow-suc 2 k)

-- `|` of two words of `k` bits has `k` bits.
pub bit_or-lt : (k a b : ℕ) → a < 2 ^ k → b < 2 ^ k → bit_or a b < 2 ^ k
bit_or-lt zero zero zero h l = omega (arith, zero-bit_or 0)
bit_or-lt zero zero (suc b) h l = absurd (omega arith)
bit_or-lt zero (suc a) b h l = absurd (omega arith)
bit_or-lt (suc k) a b h l = omega (
  arith,
  bit_or_low a b,
  pow-suc 2 k,
  bit_or-lt k (a / 2) (b / 2) (omega (arith, pow-suc 2 k)) (omega (arith, pow-suc 2 k)),
)

bit_or-zero_below : (n a : ℕ) → a ≤ n → bit_or a 0 ≡ a
bit_or-zero_below n zero h = zero-bit_or 0
bit_or-zero_below zero (suc a) h = absurd (omega arith)
bit_or-zero_below (suc n) (suc a) h =
    omega (arith, bit_or_low (suc a) 0, bit_or-zero_below n (suc a / 2) (omega arith))

bit_or_comm_below : (n a b : ℕ) → a ≤ n → bit_or a b ≡ bit_or b a
bit_or_comm_below n zero b h = zero-bit_or b ∙ sym (bit_or-zero_below b b (le_refl b))
bit_or_comm_below zero (suc a) b h = absurd (omega arith)
bit_or_comm_below (suc n) (suc a) b h = omega (
  arith,
  bit_or_low (suc a) b,
  bit_or_low b (suc a),
  bit_or_comm_below n (suc a / 2) (b / 2) (omega arith),
)

pub bit_or_comm : (a b : ℕ) → bit_or a b ≡ bit_or b a
bit_or_comm a b = bit_or_comm_below a a b (le_refl a)

pub pow-lt : (j k : ℕ) → j < k → 2 ^ j < 2 ^ k
pow-lt j zero h = elim h [ ]
pow-lt zero (suc k) h = omega (arith, pow-suc 2 k, one-le-pow k 2 (omega arith))
pow-lt (suc j) (suc k) h = omega (arith, pow-suc 2 k, pow-suc 2 j, pow-lt j k (omega arith))
